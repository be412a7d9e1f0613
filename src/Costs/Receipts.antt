-- ===== src/Costs/Receipts.antt =====
-- Assumptions, snapshots and receipts: src/intake/costs/calculator.py. Random identifiers and the
-- clock's readings are arguments; days of validity are not negative.
use mathlib.Core.Int.{◌+ℤ◌}
use intake.Prelude.{
  ℕ, ◌+◌, ◌*◌, String, Bool, true, false, not, Option, none, some, List, [], ◌∷◌, ◌++◌, keep_if,
  str_eq, if◌then◌else◌,
}
use intake.Prelude.Dict.{Dict, get, put}
use intake.Prelude.Text.{text_or}
use intake.Prelude.Result.{ok, err}
use intake.Costs.Model.{
  Decimal, kind_value, CostConfidence, CostRiskLevel, CostAssumption, CostSourceSnapshot,
  CostEstimateLineItem, CostEstimateScenario, VendorCostReceipt, Calculator,
}
use intake.Costs.Totals.{no_money}
use intake.Costs.Scenarios.{
  scenario_not_found, assumption_not_found, type_error, Entry, update_scenario, then_cons,
}

-- The arguments of `add_assumption` after the scenario.
pub record AssumptionRequest : Type 0 where
  pub category : String
  pub description : String
  pub data_type : String
  pub value : String
  pub unit : Option String
  pub confidence : CostConfidence
  pub risk_level : CostRiskLevel
  pub notes : String
  pub source : Option String
  pub source_url : Option String

unfoldable pub new_assumption :
    (assumption_id : String) (created_at : ℕ) → String → AssumptionRequest → CostAssumption
new_assumption assumption_id created_at scenario_id r = record {
  assumption_id = assumption_id;
  scenario_id = some scenario_id;
  category = r.category;
  description = r.description;
  data_type = r.data_type;
  value = r.value;
  unit = r.unit;
  confidence = r.confidence;
  risk_level = r.risk_level;
  notes = r.notes;
  source = r.source;
  source_url = r.source_url;
  is_active = true;
  created_at = created_at;
}

abbrev pub assume_in :
    Option CostEstimateScenario → CostAssumption → (now : ℕ) → Entry CostAssumption
assume_in none a now c = (err scenario_not_found, c)
assume_in (some s) a now c =
    (ok a, update_scenario (record s { assumptions = s.assumptions ++ a ∷ [] }) now c)

unfoldable pub add_assumption :
    String
    → AssumptionRequest
    → (assumption_id : String) (created_at now : ℕ) → Entry CostAssumption
unfolding new_assumption update_scenario
add_assumption scenario_id r assumption_id created_at now c =
    assume_in (get c.scenarios scenario_id) (new_assumption assumption_id created_at scenario_id r)
      now c

-- The loop of `update_assumption`: the first with the identifier is replaced.
unfoldable pub replace_assumption :
    CostAssumption → List CostAssumption → Option (List CostAssumption)
replace_assumption a [] = none
replace_assumption a (x ∷ xs) =
    let rest = then_cons x (replace_assumption a xs) in
    if str_eq x.assumption_id a.assumption_id then some (a ∷ xs) else rest

abbrev pub store_assumptions :
    Option (List CostAssumption)
    → CostEstimateScenario
    → CostAssumption
    → (now : ℕ) → Entry CostAssumption
store_assumptions none s a now c = (err assumption_not_found, c)
store_assumptions (some xs) s a now c =
    (ok a, update_scenario (record s { assumptions = xs }) now c)

abbrev pub update_assumption_in :
    Option CostEstimateScenario → CostAssumption → (now : ℕ) → Entry CostAssumption
update_assumption_in none a now c = (err scenario_not_found, c)
update_assumption_in (some s) a now c =
    store_assumptions (replace_assumption a s.assumptions) s a now c

-- `self.get_scenario(assumption.scenario_id)`, where the identifier may be None
abbrev pub scenario_of : Option String → Calculator → Option CostEstimateScenario
scenario_of none c = none
scenario_of (some scenario_id) c = get c.scenarios scenario_id

unfoldable pub update_assumption : CostAssumption → (now : ℕ) → Entry CostAssumption
unfolding replace_assumption update_scenario
update_assumption a now c = update_assumption_in (scenario_of a.scenario_id c) a now c

abbrev pub delete_assumption_in :
    Option CostEstimateScenario → String → (now : ℕ) → Calculator → Bool × Calculator
delete_assumption_in none assumption_id now c = (false, c)
delete_assumption_in (some s) assumption_id now c = (
  true,
  update_scenario
      (record s {
        assumptions = keep_if (λ a. not (str_eq a.assumption_id assumption_id)) s.assumptions;
      })
      now c,
)

unfoldable pub delete_assumption : String → String → (now : ℕ) → Calculator → Bool × Calculator
unfolding update_scenario
delete_assumption scenario_id assumption_id now c =
    delete_assumption_in (get c.scenarios scenario_id) assumption_id now c

-- `add_snapshot`, of the snapshot that it builds from its arguments
unfoldable pub add_snapshot : CostSourceSnapshot → Calculator → CostSourceSnapshot × Calculator
add_snapshot snapshot c =
    (snapshot, record c { snapshots = put c.snapshots snapshot.snapshot_id snapshot })

-- `d.get(key, Decimal("0"))`
abbrev pub or_no_money : Option Decimal → Decimal
or_no_money none = no_money
or_no_money (some amount) = amount

-- The loop over the line items: the costs of each provider so far.
unfoldable pub break_down : Dict Decimal → List CostEstimateLineItem → Dict Decimal
break_down costs [] = costs
break_down costs (item ∷ items) =
    let key = kind_value item.provider_kind in
    break_down (put costs key (or_no_money (get costs key) +ℤ item.total_usd)) items

-- The arguments of `generate_receipt` after the scenario.
pub record ReceiptTerms : Type 0 where
  pub display_name : Option String
  pub description : Option String
  pub valid_until_days : ℕ
  pub disclaimer : Option String
  pub created_by : Option String
  pub client_id : Option String
  pub quote_id : Option String

abbrev pub default_disclaimer : String
default_disclaimer =
    "Pricing may change. Please verify current rates with vendors. This estimate is based on publicly available information and assumptions. Actual costs may vary based on usage, region, and vendor pricing changes."

-- What identifies a new receipt: its identifier, and the five readings of the clock in their order.
pub record ReceiptStamp : Type 0 where
  pub id : String
  pub valid_from : ℕ
  pub now : ℕ
  pub created_at : ℕ
  pub pricing_updated_at : ℕ

-- `a + b`, where None raises TypeError
abbrev pub add_some : Option Decimal → Option Decimal → Option Decimal
add_some (some a) (some b) = some (a +ℤ b)
add_some _ _ = none

unfoldable pub new_receipt :
    ReceiptStamp → String → CostEstimateScenario → ReceiptTerms → Decimal → VendorCostReceipt
unfolding break_down
new_receipt stamp scenario_id s terms provider_total = record {
  receipt_id = stamp.id;
  scenario_id = scenario_id;
  display_name = text_or terms.display_name s.display_name;
  description = text_or terms.description s.description;
  total_monthly_usd = s.total_monthly_usd;
  total_one_time_usd = s.total_one_time_usd;
  total_usd = s.total_usd;
  currency = s.currency;
  provider_costs_total_usd = some provider_total;
  intake_costs_total_usd = some no_money;
  provider_costs_breakdown = break_down [] s.line_items;
  valid_from = stamp.valid_from;
  valid_until = some (stamp.now + terms.valid_until_days * 86400);
  source_snapshots = s.snapshots;
  pricing_updated_at = some stamp.pricing_updated_at;
  disclaimer = text_or terms.disclaimer default_disclaimer;
  created_at = stamp.created_at;
  created_by = terms.created_by;
  client_id = terms.client_id;
  quote_id = terms.quote_id;
  version = 1;
  previous_receipt_id = none;
}

abbrev pub receipt_with :
    Option Decimal
    → CostEstimateScenario
    → ReceiptStamp
    → String
    → ReceiptTerms
    → Entry VendorCostReceipt
receipt_with none s stamp scenario_id terms c = (err type_error, c)
receipt_with (some provider_total) s stamp scenario_id terms c =
    let receipt = new_receipt stamp scenario_id s terms provider_total in
    (ok receipt, record c { receipts = put c.receipts receipt.receipt_id receipt })

abbrev pub receipt_for :
    Option CostEstimateScenario → ReceiptStamp → String → ReceiptTerms → Entry VendorCostReceipt
receipt_for none stamp scenario_id terms c = (err scenario_not_found, c)
receipt_for (some s) stamp scenario_id terms c =
    receipt_with (add_some s.total_monthly_usd s.total_one_time_usd) s stamp scenario_id terms c

unfoldable pub generate_receipt : ReceiptStamp → String → ReceiptTerms → Entry VendorCostReceipt
unfolding new_receipt
generate_receipt stamp scenario_id terms c =
    receipt_for (get c.scenarios scenario_id) stamp scenario_id terms c
