-- ===== src/Costs/Totals.antt =====
-- The recalculation of a scenario: `_recalculate_scenario_totals` and
-- `_recalculate_scenario_quality` of src/intake/costs/calculator.py.
use mathlib.Core.Int.{pos, ◌+ℤ◌}
use intake.Prelude.{ℕ, Bool, true, false, some, List, [], ◌∷◌, ltb, if◌then◌else◌}
use intake.Costs.Model.{
  Decimal, CostFrequency, one_time, CostConfidence, verified, confirmed, estimated, projected,
  CostRiskLevel, low, medium, high, uncertain, CostEstimateLineItem, CostEstimateScenario,
}

-- `Decimal("0")`
abbrev pub no_money : Decimal
no_money = pos 0

-- `frequency_map[frequency] == "one_time"`: any other frequency counts as monthly, as it is.
abbrev pub is_one_time : CostFrequency → Bool
is_one_time one_time = true
is_one_time _ = false

-- The loop over the line items, with the monthly and the one-time total so far.
unfoldable pub add_up : Decimal → Decimal → List CostEstimateLineItem → Decimal × Decimal
add_up monthly_total one_time_total [] = (monthly_total, one_time_total)
add_up monthly_total one_time_total (item ∷ items) =
    if is_one_time item.frequency
    then add_up monthly_total (one_time_total +ℤ item.total_usd) items
    else add_up (monthly_total +ℤ item.total_usd) one_time_total items

-- `confidence_order.get(confidence, 4)`
abbrev pub confidence_order : CostConfidence → ℕ
confidence_order verified = 0
confidence_order confirmed = 1
confidence_order estimated = 2
confidence_order projected = 3
confidence_order CostConfidence.unknown = 4

-- `risk_order.get(risk_level, 3)`
abbrev pub risk_order : CostRiskLevel → ℕ
risk_order low = 0
risk_order medium = 1
risk_order high = 2
risk_order uncertain = 3
risk_order CostRiskLevel.unknown = 3

-- The loop over the line items, with the worst values so far.
unfoldable pub worst_of :
    CostConfidence → CostRiskLevel → List CostEstimateLineItem → CostConfidence × CostRiskLevel
worst_of confidence risk [] = (confidence, risk)
worst_of confidence risk (item ∷ items) =
    worst_of
      (if ltb (confidence_order confidence) (confidence_order item.confidence)
        then item.confidence
        else confidence)
      (if ltb (risk_order risk) (risk_order item.risk_level) then item.risk_level else risk) items

-- `_recalculate_scenario_quality`: the worst values start from the scenario's own.
unfoldable pub quality_of :
    CostConfidence → CostRiskLevel → List CostEstimateLineItem → CostConfidence × CostRiskLevel
unfolding worst_of
quality_of confidence risk [] = (CostConfidence.unknown, CostRiskLevel.unknown)
quality_of confidence risk (item ∷ items) = worst_of confidence risk (item ∷ items)

-- `_recalculate_scenario_totals`, with the quality at its end
unfoldable pub recalculate : CostEstimateScenario → CostEstimateScenario
unfolding add_up quality_of
recalculate s =
    let (monthly_total, one_time_total) = add_up no_money no_money s.line_items in
    let (confidence, risk) = quality_of s.overall_confidence s.overall_risk_level s.line_items in
    record s {
      total_monthly_usd = some monthly_total;
      total_one_time_usd = some one_time_total;
      total_usd = some (monthly_total +ℤ one_time_total);
      overall_confidence = confidence;
      overall_risk_level = risk;
    }
