-- ===== src/Costs/Scenarios.antt =====
-- Scenarios, their line items and their assumptions: src/intake/costs/calculator.py. A scenario
-- object is a value of the table, so a caller's changes to one it holds are changes by
-- `update_scenario`. Random identifiers and the clock's readings are arguments.
use mathlib.Core.Int.{ℤ, ◌*ℤ◌}
use intake.Prelude.{
  ℕ, String, Bool, true, false, not, Option, none, some, List, [], ◌∷◌, ◌++◌, keep_if, str_eq,
  if◌then◌else◌,
}
use intake.Prelude.Dict.{get, put, del}
use intake.Prelude.Result.{ok, err, Exec}
use intake.Costs.Model.{
  Decimal, CostFrequency, VendorProviderKind, usd, CostConfidence, CostRiskLevel,
  CostEstimateLineItem, CostEstimateScenario, Calculator,
}
use intake.Costs.Totals.{recalculate}

-- CostCalculatorError, by what is not found, and Python's TypeError.
pub data CostError : Type 0 where
  scenario_not_found line_item_not_found assumption_not_found type_error : CostError

abbrev pub Entry : Type 0 → Type 0
Entry = Exec Calculator CostError

unfoldable pub new_scenario :
    (scenario_id : String) (created_at : ℕ) → String → String → Option String → CostEstimateScenario
new_scenario scenario_id created_at display_name description created_by = record {
  scenario_id = scenario_id;
  display_name = display_name;
  description = description;
  total_monthly_usd = none;
  total_one_time_usd = none;
  total_usd = none;
  currency = usd;
  line_items = [];
  assumptions = [];
  snapshots = [];
  tags = [];
  created_at = created_at;
  updated_at = none;
  created_by = created_by;
  overall_confidence = CostConfidence.unknown;
  overall_risk_level = CostRiskLevel.unknown;
  risk_notes = "";
}

-- `self._scenarios[scenario.scenario_id] = scenario`
abbrev pub keep : CostEstimateScenario → Calculator → Calculator
keep s c = record c { scenarios = put c.scenarios s.scenario_id s }

unfoldable pub create_scenario :
    (scenario_id : String) (created_at : ℕ)
    → String
    → String
    → Option String
    → Calculator
    → CostEstimateScenario × Calculator
unfolding new_scenario
create_scenario scenario_id created_at display_name description created_by c =
    let s = new_scenario scenario_id created_at display_name description created_by in (s, keep s c)

unfoldable pub update_scenario : CostEstimateScenario → (now : ℕ) → Calculator → Calculator
update_scenario s now c = keep (record s { updated_at = some now }) c

abbrev pub delete_found : Option CostEstimateScenario → String → Calculator → Bool × Calculator
delete_found none scenario_id c = (false, c)
delete_found (some s) scenario_id c = (true, record c { scenarios = del c.scenarios scenario_id })

unfoldable pub delete_scenario : String → Calculator → Bool × Calculator
delete_scenario scenario_id c = delete_found (get c.scenarios scenario_id) scenario_id c

-- `self.update_scenario(scenario)` and `self._recalculate_scenario_totals(scenario)`, which works
-- on the same object
unfoldable pub update_totals : CostEstimateScenario → (now : ℕ) → Calculator → Calculator
unfolding recalculate
update_totals s now c = keep (recalculate (record s { updated_at = some now })) c

-- The arguments of `add_line_item` after the scenario.
pub record LineItemRequest : Type 0 where
  pub provider_kind : VendorProviderKind
  pub category : String
  pub description : String
  pub quantity : Decimal
  pub unit_price_usd : Decimal
  pub frequency : CostFrequency
  pub assumption_ids : List String
  pub fact_ids : List String
  pub snapshot_ids : List String
  pub confidence : CostConfidence
  pub risk_level : CostRiskLevel
  pub notes : String
  pub sort_order : ℤ

unfoldable pub new_line_item : String → String → LineItemRequest → CostEstimateLineItem
new_line_item line_item_id scenario_id r = record {
  line_item_id = line_item_id;
  scenario_id = scenario_id;
  provider_kind = r.provider_kind;
  category = r.category;
  description = r.description;
  quantity = r.quantity;
  unit_price_usd = r.unit_price_usd;
  total_usd = r.quantity *ℤ r.unit_price_usd;
  currency = usd;
  frequency = r.frequency;
  formula = none;
  assumption_ids = r.assumption_ids;
  fact_ids = r.fact_ids;
  snapshot_ids = r.snapshot_ids;
  confidence = r.confidence;
  risk_level = r.risk_level;
  notes = r.notes;
  sort_order = r.sort_order;
}

abbrev pub add_item_to :
    Option CostEstimateScenario → CostEstimateLineItem → (now : ℕ) → Entry CostEstimateLineItem
add_item_to none item now c = (err scenario_not_found, c)
add_item_to (some s) item now c =
    (ok item, update_totals (record s { line_items = s.line_items ++ item ∷ [] }) now c)

unfoldable pub add_line_item :
    String → LineItemRequest → (line_item_id : String) (now : ℕ) → Entry CostEstimateLineItem
unfolding new_line_item update_totals
add_line_item scenario_id r line_item_id now c =
    add_item_to (get c.scenarios scenario_id) (new_line_item line_item_id scenario_id r) now c

abbrev pub then_cons {ℓ} : {A : Type ℓ} → A → Option (List A) → Option (List A)
then_cons a none = none
then_cons a (some rest) = some (a ∷ rest)

-- The loop of `update_line_item`: the first item with the identifier is replaced.
unfoldable pub replace_item :
    CostEstimateLineItem → List CostEstimateLineItem → Option (List CostEstimateLineItem)
replace_item item [] = none
replace_item item (li ∷ lis) =
    let rest = then_cons li (replace_item item lis) in
    if str_eq li.line_item_id item.line_item_id then some (item ∷ lis) else rest

abbrev pub store_items :
    Option (List CostEstimateLineItem)
    → CostEstimateScenario
    → CostEstimateLineItem
    → (now : ℕ) → Entry CostEstimateLineItem
store_items none s item now c = (err line_item_not_found, c)
store_items (some items) s item now c =
    (ok item, update_totals (record s { line_items = items }) now c)

abbrev pub update_item_in :
    Option CostEstimateScenario → CostEstimateLineItem → (now : ℕ) → Entry CostEstimateLineItem
update_item_in none item now c = (err scenario_not_found, c)
update_item_in (some s) item now c = store_items (replace_item item s.line_items) s item now c

unfoldable pub update_line_item : CostEstimateLineItem → (now : ℕ) → Entry CostEstimateLineItem
unfolding replace_item update_totals
update_line_item item now c = update_item_in (get c.scenarios item.scenario_id) item now c

abbrev pub delete_item_in :
    Option CostEstimateScenario → String → (now : ℕ) → Calculator → Bool × Calculator
delete_item_in none line_item_id now c = (false, c)
delete_item_in (some s) line_item_id now c = (
  true,
  update_totals
      (record s {
        line_items = keep_if (λ li. not (str_eq li.line_item_id line_item_id)) s.line_items;
      })
      now c,
)

unfoldable pub delete_line_item : String → String → (now : ℕ) → Calculator → Bool × Calculator
unfolding update_totals
delete_line_item scenario_id line_item_id now c =
    delete_item_in (get c.scenarios scenario_id) line_item_id now c
