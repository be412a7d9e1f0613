-- ===== src/Costs/Tests.antt =====
-- Runs of src/intake/costs/calculator.py at concrete inputs.
use mathlib.Core.Int.{pos}
use intake.Prelude.{ℕ, String, ◌≡◌, refl, Option, none, some, List, [], ◌∷◌}
use intake.Prelude.Dict.{get}
use intake.Costs.Model.{
  CostFrequency, VendorProviderKind, CostConfidence, CostRiskLevel, CostEstimateScenario,
  Calculator,
}
use intake.Costs.Totals.{recalculate}
use intake.Costs.Scenarios.{
  create_scenario, new_scenario, LineItemRequest, new_line_item, add_line_item,
}
use intake.Costs.Receipts.{ReceiptStamp, ReceiptTerms, generate_receipt}
use intake.Costs.Ledger.{IsLedger}
use intake.Costs.Breakdown.{Billed, generate_receipt-Billed}
use intake.Costs.Reach.{new_calculator, CostStep, CostReach, CostReach-IsLedger, CostReach-unknown}

-- Two instances at five a month, from a verified source.
abbrev hosting : LineItemRequest
hosting = record {
  provider_kind = VendorProviderKind.railway;
  category = "hosting";
  description = "Base";
  quantity = pos 2;
  unit_price_usd = pos 5;
  frequency = CostFrequency.monthly;
  assumption_ids = [];
  fact_ids = [];
  snapshot_ids = [];
  confidence = CostConfidence.verified;
  risk_level = CostRiskLevel.low;
  notes = "";
  sort_order = pos 0;
}

abbrev opened : Calculator
opened = (create_scenario "s1" 1 "Standard" "" none new_calculator).1

abbrev priced : Calculator
priced = (add_line_item "s1" hosting "i1" 2 opened).1

abbrev scenario : CostEstimateScenario
scenario = recalculate (record (new_scenario "s1" 1 "Standard" "" none) {
  line_items = new_line_item "i1" "s1" hosting ∷ [];
  updated_at = some 2;
})

CostReach-priced : CostReach priced
CostReach-priced =
    CostReach.next
      (CostReach.next CostReach.start (CostStep.creates "s1" 1 "Standard" "" none new_calculator))
      (CostStep.adds "s1" hosting "i1" 2 opened)

CostReach-IsLedger_example : IsLedger priced
CostReach-IsLedger_example = CostReach-IsLedger CostReach-priced

-- The only line item is verified and of low risk.
CostReach-unknown_example :
    (scenario.overall_confidence ≡ CostConfidence.unknown)
    × (scenario.overall_risk_level ≡ CostRiskLevel.unknown)
unfolding get add_line_item create_scenario intake.Prelude.Dict.put
CostReach-unknown_example = CostReach-unknown "s1" scenario CostReach-priced refl

abbrev stamp : ReceiptStamp
stamp = record { id = "r1"; valid_from = 3; now = 3; created_at = 3; pricing_updated_at = 4 }

abbrev terms : ReceiptTerms
terms = record {
  display_name = none;
  description = none;
  valid_until_days = 30;
  disclaimer = none;
  created_by = none;
  client_id = none;
  quote_id = none;
}

generate_receipt-Billed_example : Billed scenario priced (generate_receipt stamp "s1" terms priced)
unfolding get add_line_item create_scenario intake.Prelude.Dict.put
generate_receipt-Billed_example =
    generate_receipt-Billed stamp "s1" terms scenario priced CostReach-IsLedger_example refl
