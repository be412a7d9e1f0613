-- ===== src/Costs/Reach.antt =====
-- The states that CostCalculator of src/intake/costs/calculator.py reaches.
use intake.Prelude.{ℕ, String, ◌≡◌, Option, some, List, [], inl, inr, Option-cases}
use intake.Prelude.Dict.{get}
use intake.Costs.Model.{
  CostConfidence, CostRiskLevel, CostAssumption, CostSourceSnapshot, CostEstimateLineItem,
  CostEstimateScenario, Calculator,
}
use intake.Costs.Scenarios.{
  create_scenario, update_scenario, delete_scenario, LineItemRequest, add_line_item,
  update_line_item, delete_line_item,
}
use intake.Costs.Receipts.{
  AssumptionRequest, add_assumption, update_assumption, delete_assumption, add_snapshot,
  ReceiptStamp, ReceiptTerms, add_some, generate_receipt,
}
use intake.Costs.Ledger.{
  IsLedger, create_scenario-IsLedger, update_scenario-IsLedger, delete_scenario-IsLedger,
  add_line_item-IsLedger, update_line_item-IsLedger, delete_line_item-IsLedger,
  add_assumption-IsLedger, update_assumption-IsLedger, delete_assumption-IsLedger,
}

abbrev pub new_calculator : Calculator
new_calculator = record { scenarios = []; receipts = []; snapshots = [] }

-- The calls that change the calculator. `update_scenario` is called for a stored scenario with new
-- tags, as local_console/api/costs.py does.
pub data CostStep : Calculator → Calculator → Type 0 where
  creates :
      (id : String) (at : ℕ) (name text : String) (by : Option String) (c : Calculator)
      → CostStep c (create_scenario id at name text by c).1
  tags :
      (id : String) (s : CostEstimateScenario) (labels : List String) (now : ℕ) (c : Calculator)
      → get c.scenarios id ≡ some s
      → CostStep c (update_scenario (record s { tags = labels }) now c)
  deletes : (id : String) (c : Calculator) → CostStep c (delete_scenario id c).1
  adds :
      (id : String) (r : LineItemRequest) (item_id : String) (now : ℕ) (c : Calculator)
      → CostStep c (add_line_item id r item_id now c).1
  edits :
      (item : CostEstimateLineItem) (now : ℕ) (c : Calculator)
      → CostStep c (update_line_item item now c).1
  removes :
      (id item_id : String) (now : ℕ) (c : Calculator)
      → CostStep c (delete_line_item id item_id now c).1
  assumes :
      (id : String) (r : AssumptionRequest) (aid : String) (at now : ℕ) (c : Calculator)
      → CostStep c (add_assumption id r aid at now c).1
  revises :
      (a : CostAssumption) (now : ℕ) (c : Calculator) → CostStep c (update_assumption a now c).1
  retracts :
      (id aid : String) (now : ℕ) (c : Calculator) → CostStep c (delete_assumption id aid now c).1
  captures : (s : CostSourceSnapshot) (c : Calculator) → CostStep c (add_snapshot s c).1
  bills :
      (stamp : ReceiptStamp) (id : String) (terms : ReceiptTerms) (c : Calculator)
      → CostStep c (generate_receipt stamp id terms c).1

pub data CostReach : Calculator → Type 0 where
  start : CostReach new_calculator
  next : {c c' : Calculator} → CostReach c → CostStep c c' → CostReach c'

bills-IsLedger :
    (stamp : ReceiptStamp) (id : String) (terms : ReceiptTerms) (c : Calculator)
    → IsLedger c
    → IsLedger (generate_receipt stamp id terms c).1
unfolding generate_receipt
bills-IsLedger stamp id terms c h = elim (Option-cases (get c.scenarios id)) [
  | inl gone ↦ rw gone h
  | inr (s, found) ↦ elim (Option-cases (add_some s.total_monthly_usd s.total_one_time_usd)) [
    | inl missing ↦ rw (found, missing) h
    | inr (total, there) ↦ rw (found, there) h
  ]
]

CostStep-IsLedger : {c c' : Calculator} → CostStep c c' → IsLedger c → IsLedger c'
unfolding add_snapshot
CostStep-IsLedger (creates id at name text by c) h = create_scenario-IsLedger id at name text by c h
CostStep-IsLedger (tags id s labels now c found) h =
    update_scenario-IsLedger id s labels s.assumptions now c h found
CostStep-IsLedger (deletes id c) h = delete_scenario-IsLedger id c h
CostStep-IsLedger (adds id r item_id now c) h = add_line_item-IsLedger id r item_id now c h
CostStep-IsLedger (edits item now c) h = update_line_item-IsLedger item now c h
CostStep-IsLedger (removes id item_id now c) h = delete_line_item-IsLedger id item_id now c h
CostStep-IsLedger (assumes id r aid at now c) h = add_assumption-IsLedger id r aid at now c h
CostStep-IsLedger (revises a now c) h = update_assumption-IsLedger a now c h
CostStep-IsLedger (retracts id aid now c) h = delete_assumption-IsLedger id aid now c h
CostStep-IsLedger (captures s c) h = h
CostStep-IsLedger (bills stamp id terms c) h = bills-IsLedger stamp id terms c h

-- After any calls, in which others change only the tags of the scenarios that they hold, every
-- scenario is stored under its identifier, and its totals are those of its line items, or missing
-- where it has had none.
pub CostReach-IsLedger : {c : Calculator} → CostReach c → IsLedger c
unfolding get
CostReach-IsLedger start = λ k s e. cc e
CostReach-IsLedger (next reach step) = CostStep-IsLedger step (CostReach-IsLedger reach)

-- However confident the line items are and however low their risk, the overall confidence and
-- risk of every scenario are unknown after any such calls.
pub CostReach-unknown :
    {c : Calculator} (id : String) (s : CostEstimateScenario)
    → CostReach c
    → get c.scenarios id ≡ some s
    → (s.overall_confidence ≡ CostConfidence.unknown)
      × (s.overall_risk_level ≡ CostRiskLevel.unknown)
CostReach-unknown id s reach found =
    let kept = CostReach-IsLedger reach id s found in (kept.confidence, kept.risk)
