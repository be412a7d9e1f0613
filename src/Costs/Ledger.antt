-- ===== src/Costs/Ledger.antt =====
-- What holds of every scenario after any calls of CostCalculator, src/intake/costs/calculator.py.
use mathlib.Core.Int.{◌+ℤ◌}
use intake.Prelude.{
  ℕ, String, ◌≡◌, refl, ap, ◌∙◌, Option, none, some, List, [], inl, inr, Option-cases,
}
use intake.Prelude.Dict.{get, Holds, Holds-put, Holds-del}
use intake.Costs.Model.{
  CostConfidence, CostRiskLevel, CostAssumption, CostEstimateLineItem, CostEstimateScenario,
  Calculator,
}
use intake.Costs.Totals.{quality_of, recalculate}
use intake.Costs.Scenarios.{
  new_scenario, create_scenario, update_scenario, delete_scenario, update_totals, LineItemRequest,
  add_line_item, replace_item, update_line_item, delete_line_item,
}
use intake.Costs.Receipts.{
  AssumptionRequest, add_assumption, replace_assumption, scenario_of, update_assumption,
  delete_assumption,
}
use intake.Costs.Sums.{total_if, once, repeated, add_up_zero, quality_of-unknown}

-- The totals of a scenario: none before its first line item, and then those of its line items.
pub data IsTotalled (s : CostEstimateScenario) : Type 0 where
  unpriced :
      s.line_items ≡ []
      → s.total_monthly_usd ≡ none
      → s.total_one_time_usd ≡ none
      → s.total_usd ≡ none
      → IsTotalled s
  priced :
      s.total_monthly_usd ≡ some (total_if repeated s.line_items)
      → s.total_one_time_usd ≡ some (total_if once s.line_items)
      → s.total_usd ≡ some (total_if repeated s.line_items +ℤ total_if once s.line_items)
      → IsTotalled s

-- A scenario as the calculator keeps it.
pub record IsKept (scenario_id : String) (s : CostEstimateScenario) : Type 0 where
  pub key : s.scenario_id ≡ scenario_id
  pub totals : IsTotalled s
  pub confidence : s.overall_confidence ≡ CostConfidence.unknown
  pub risk : s.overall_risk_level ≡ CostRiskLevel.unknown

abbrev pub IsLedger : Calculator → Type 0
IsLedger c = Holds IsKept c.scenarios

quality_of-kept :
    (c : CostConfidence) (r : CostRiskLevel) (items : List CostEstimateLineItem)
    → c ≡ CostConfidence.unknown
    → r ≡ CostRiskLevel.unknown
    → quality_of c r items ≡ (CostConfidence.unknown, CostRiskLevel.unknown)
quality_of-kept c r items hc hr =
    ap (λ x. quality_of x r items) hc
    ∙ ap (λ x. quality_of CostConfidence.unknown x items) hr
    ∙ quality_of-unknown items

recalculate-IsKept :
    (k : String) (s : CostEstimateScenario)
    → s.scenario_id ≡ k
    → s.overall_confidence ≡ CostConfidence.unknown
    → s.overall_risk_level ≡ CostRiskLevel.unknown
    → IsKept k (recalculate s)
unfolding recalculate
recalculate-IsKept k s key confidence risk =
    let sums = add_up_zero s.line_items in
    let quality =
      quality_of-kept s.overall_confidence s.overall_risk_level s.line_items confidence risk in
    record {
      key = key;
      totals =
          priced (ap (λ x. some x.0) sums) (ap (λ x. some x.1) sums)
            (ap (λ x. some (x.0 +ℤ x.1)) sums);
      confidence = ap (λ x. x.0) quality;
      risk = ap (λ x. x.1) quality;
    }

update_totals-IsLedger :
    (k : String) (s : CostEstimateScenario) (items : List CostEstimateLineItem) (now : ℕ)
    (c : Calculator)
    → IsLedger c
    → get c.scenarios k ≡ some s
    → IsLedger (update_totals (record s { line_items = items }) now c)
unfolding update_totals
update_totals-IsLedger k s items now c h found =
    let kept = h k s found in
    Holds-put IsKept c.scenarios s.scenario_id _ h (
      recalculate-IsKept s.scenario_id (record s { line_items = items; updated_at = some now }) refl
        kept.confidence kept.risk)

-- Tags, assumptions and the time of an update are no part of what is kept.
retag :
    (s : CostEstimateScenario) (tags : List String) (assumptions : List CostAssumption)
    (at : Option ℕ)
    → IsTotalled s
    → IsTotalled (record s { tags = tags; assumptions = assumptions; updated_at = at })
retag s tags assumptions at (unpriced items m o t) = unpriced items m o t
retag s tags assumptions at (priced m o t) = priced m o t

pub update_scenario-IsLedger :
    (k : String) (s : CostEstimateScenario) (tags : List String) (assumptions : List CostAssumption)
    (now : ℕ) (c : Calculator)
    → IsLedger c
    → get c.scenarios k ≡ some s
    → IsLedger (update_scenario (record s { tags = tags; assumptions = assumptions }) now c)
unfolding update_scenario
update_scenario-IsLedger k s tags assumptions now c h found =
    let kept = h k s found in
    Holds-put IsKept c.scenarios s.scenario_id _ h (record {
      key = refl;
      totals = retag s tags assumptions (some now) kept.totals;
      confidence = kept.confidence;
      risk = kept.risk;
    })

pub create_scenario-IsLedger :
    (id : String) (at : ℕ) (name text : String) (by : Option String) (c : Calculator)
    → IsLedger c
    → IsLedger (create_scenario id at name text by c).1
unfolding create_scenario new_scenario
create_scenario-IsLedger id at name text by c h =
    Holds-put IsKept c.scenarios id _ h
      (record { key = refl; totals = unpriced refl refl refl refl; confidence = refl; risk = refl })

pub delete_scenario-IsLedger :
    (id : String) (c : Calculator) → IsLedger c → IsLedger (delete_scenario id c).1
unfolding delete_scenario
delete_scenario-IsLedger id c h = elim (Option-cases (get c.scenarios id)) [
  | inl gone ↦ rw gone h
  | inr (s, found) ↦ rw found (Holds-del IsKept c.scenarios id h)
]

pub add_line_item-IsLedger :
    (id : String) (r : LineItemRequest) (item_id : String) (now : ℕ) (c : Calculator)
    → IsLedger c
    → IsLedger (add_line_item id r item_id now c).1
unfolding add_line_item
add_line_item-IsLedger id r item_id now c h = elim (Option-cases (get c.scenarios id)) [
  | inl gone ↦ rw gone h
  | inr (s, found) ↦ rw found (update_totals-IsLedger id s _ now c h found)
]

pub update_line_item-IsLedger :
    (item : CostEstimateLineItem) (now : ℕ) (c : Calculator)
    → IsLedger c
    → IsLedger (update_line_item item now c).1
unfolding update_line_item
update_line_item-IsLedger item now c h = elim (Option-cases (get c.scenarios item.scenario_id)) [
  | inl gone ↦ rw gone h
  | inr (s, found) ↦ elim (Option-cases (replace_item item s.line_items)) [
    | inl missing ↦ rw (found, missing) h
    | inr (items, there) ↦
        rw (found, there) (update_totals-IsLedger item.scenario_id s items now c h found)
  ]
]

pub delete_line_item-IsLedger :
    (id item_id : String) (now : ℕ) (c : Calculator)
    → IsLedger c
    → IsLedger (delete_line_item id item_id now c).1
unfolding delete_line_item
delete_line_item-IsLedger id item_id now c h = elim (Option-cases (get c.scenarios id)) [
  | inl gone ↦ rw gone h
  | inr (s, found) ↦ rw found (update_totals-IsLedger id s _ now c h found)
]

pub add_assumption-IsLedger :
    (id : String) (r : AssumptionRequest) (aid : String) (at now : ℕ) (c : Calculator)
    → IsLedger c
    → IsLedger (add_assumption id r aid at now c).1
unfolding add_assumption
add_assumption-IsLedger id r aid at now c h = elim (Option-cases (get c.scenarios id)) [
  | inl gone ↦ rw gone h
  | inr (s, found) ↦ rw found (update_scenario-IsLedger id s s.tags _ now c h found)
]

scenario_of-get :
    (o : Option String) (c : Calculator) (s : CostEstimateScenario)
    → scenario_of o c ≡ some s
    → (k : String) × (get c.scenarios k ≡ some s)
scenario_of-get none c s e = cc e
scenario_of-get (some k) c s e = (k, e)

pub update_assumption-IsLedger :
    (a : CostAssumption) (now : ℕ) (c : Calculator)
    → IsLedger c
    → IsLedger (update_assumption a now c).1
unfolding update_assumption
update_assumption-IsLedger a now c h = elim (Option-cases (scenario_of a.scenario_id c)) [
  | inl gone ↦ rw gone h
  | inr (s, found) ↦ elim (Option-cases (replace_assumption a s.assumptions)) [
    | inl missing ↦ rw (found, missing) h
    | inr (xs, there) ↦
        let (k, stored) = scenario_of-get a.scenario_id c s found in
        rw (found, there) (update_scenario-IsLedger k s s.tags xs now c h stored)
  ]
]

pub delete_assumption-IsLedger :
    (id aid : String) (now : ℕ) (c : Calculator)
    → IsLedger c
    → IsLedger (delete_assumption id aid now c).1
unfolding delete_assumption
delete_assumption-IsLedger id aid now c h = elim (Option-cases (get c.scenarios id)) [
  | inl gone ↦ rw gone h
  | inr (s, found) ↦ rw found (update_scenario-IsLedger id s s.tags _ now c h found)
]
