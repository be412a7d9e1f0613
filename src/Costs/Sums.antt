-- ===== src/Costs/Sums.antt =====
-- What the loops of src/intake/costs/calculator.py add up: `_recalculate_scenario_totals`,
-- `_recalculate_scenario_quality` and the breakdown by provider.
use mathlib.Core.Int.{ℤ, pos, ◌+ℤ◌, +ℤ_assoc, +ℤ_comm, +ℤ_idl}
use intake.Prelude.{
  String, ◌≡◌, refl, sym, ap, ◌∙◌, Bool, false, not, List, [], ◌∷◌, inl, inr, Bool-cases, str_eq,
  ltb, if◌then◌else◌,
}
use intake.Prelude.Dict.{Dict, get, put}
use intake.Costs.Model.{
  Decimal, CostConfidence, verified, confirmed, estimated, projected, CostRiskLevel, low, medium,
  high, uncertain, kind_value, CostEstimateLineItem,
}
use intake.Costs.Totals.{
  no_money, is_one_time, add_up, confidence_order, risk_order, worst_of, quality_of,
}
use intake.Costs.Receipts.{or_no_money, break_down}

-- The totals of the items that pass the test, and of all.
abbrev pub total_if : (CostEstimateLineItem → Bool) → List CostEstimateLineItem → Decimal
total_if p [] = no_money
total_if p (item ∷ items) = if p item then item.total_usd +ℤ total_if p items else total_if p items

abbrev pub total_all : List CostEstimateLineItem → Decimal
total_all [] = no_money
total_all (item ∷ items) = item.total_usd +ℤ total_all items

abbrev pub once : CostEstimateLineItem → Bool
once item = is_one_time item.frequency

abbrev pub repeated : CostEstimateLineItem → Bool
repeated item = not (is_one_time item.frequency)

abbrev pub total_values : Dict Decimal → Decimal
total_values [] = no_money
total_values ((k, v) ∷ d) = v +ℤ total_values d

idr : (a : ℤ) → a +ℤ pos 0 ≡ a
idr a = +ℤ_comm a (pos 0) ∙ +ℤ_idl a

-- `a + (b + c)` with the first two swapped.
swap_first : (a b c : ℤ) → a +ℤ (b +ℤ c) ≡ b +ℤ (a +ℤ c)
swap_first a b c = sym (+ℤ_assoc a b c) ∙ ap (λ x. x +ℤ c) (+ℤ_comm a b) ∙ +ℤ_assoc b a c

pub add_up_lem :
    (m o : Decimal) (items : List CostEstimateLineItem)
    → add_up m o items ≡ (m +ℤ total_if repeated items, o +ℤ total_if once items)
unfolding add_up
add_up_lem m o [] = λ i. (sym (idr m) i, sym (idr o) i)
add_up_lem m o (item ∷ items) = elim (Bool-cases (is_one_time item.frequency)) [
  | inl e ↦ rw e (
      add_up_lem m (o +ℤ item.total_usd) items
      ∙ ap (λ x. (m +ℤ total_if repeated items, x))
          (+ℤ_assoc o item.total_usd (total_if once items)))
  | inr e ↦ rw e (
      add_up_lem (m +ℤ item.total_usd) o items
      ∙ ap (λ x. (x, o +ℤ total_if once items))
          (+ℤ_assoc m item.total_usd (total_if repeated items)))
]

pub add_up_zero :
    (items : List CostEstimateLineItem)
    → add_up no_money no_money items ≡ (total_if repeated items, total_if once items)
add_up_zero items =
    add_up_lem no_money no_money items
    ∙ (λ i. (+ℤ_idl (total_if repeated items) i, +ℤ_idl (total_if once items) i))

-- Both totals together are the total of all.
pub total_if-split :
    (items : List CostEstimateLineItem)
    → total_if repeated items +ℤ total_if once items ≡ total_all items
total_if-split [] = refl
total_if-split (item ∷ items) = elim (Bool-cases (is_one_time item.frequency)) [
  | inl e ↦ rw e (
      swap_first (total_if repeated items) item.total_usd (total_if once items)
      ∙ ap (λ x. item.total_usd +ℤ x) (total_if-split items))
  | inr e ↦ rw e (
      +ℤ_assoc item.total_usd (total_if repeated items) (total_if once items)
      ∙ ap (λ x. item.total_usd +ℤ x) (total_if-split items))
]

-- One entry grows by an amount, and so does the total.
total_values-put :
    (d : Dict Decimal) (k : String) (x : Decimal)
    → total_values (put d k (or_no_money (get d k) +ℤ x)) ≡ x +ℤ total_values d
unfolding get put
total_values-put [] k x = ap (λ y. y +ℤ no_money) (+ℤ_idl x)
total_values-put ((j, w) ∷ d) k x = elim (Bool-cases (str_eq j k)) [
  | inl e ↦ rw e (ap (λ y. y +ℤ total_values d) (+ℤ_comm w x) ∙ +ℤ_assoc x w (total_values d))
  | inr e ↦ rw e (ap (λ y. w +ℤ y) (total_values-put d k x) ∙ swap_first w x (total_values d))
]

pub total_values-break_down :
    (items : List CostEstimateLineItem) (d : Dict Decimal)
    → total_values (break_down d items) ≡ total_all items +ℤ total_values d
unfolding break_down
total_values-break_down [] d = sym (+ℤ_idl (total_values d))
total_values-break_down (item ∷ items) d =
    total_values-break_down items _
    ∙ ap (λ y. total_all items +ℤ y)
        (total_values-put d (kind_value item.provider_kind) item.total_usd)
    ∙ swap_first (total_all items) item.total_usd (total_values d)
    ∙ sym (+ℤ_assoc item.total_usd (total_all items) (total_values d))

-- Nothing is worse than an unknown confidence or risk.
confidence_order-bounded :
    (c : CostConfidence)
    → ltb (confidence_order CostConfidence.unknown) (confidence_order c) ≡ false
confidence_order-bounded verified = refl
confidence_order-bounded confirmed = refl
confidence_order-bounded estimated = refl
confidence_order-bounded projected = refl
confidence_order-bounded CostConfidence.unknown = refl

risk_order-bounded :
    (r : CostRiskLevel) → ltb (risk_order CostRiskLevel.unknown) (risk_order r) ≡ false
risk_order-bounded low = refl
risk_order-bounded medium = refl
risk_order-bounded high = refl
risk_order-bounded uncertain = refl
risk_order-bounded CostRiskLevel.unknown = refl

worst_of-unknown :
    (items : List CostEstimateLineItem)
    → worst_of CostConfidence.unknown CostRiskLevel.unknown items
      ≡ (CostConfidence.unknown, CostRiskLevel.unknown)
unfolding worst_of
worst_of-unknown [] = refl
worst_of-unknown (item ∷ items) =
    rw (confidence_order-bounded item.confidence, risk_order-bounded item.risk_level)
      (worst_of-unknown items)

pub quality_of-unknown :
    (items : List CostEstimateLineItem)
    → quality_of CostConfidence.unknown CostRiskLevel.unknown items
      ≡ (CostConfidence.unknown, CostRiskLevel.unknown)
unfolding quality_of
quality_of-unknown [] = refl
quality_of-unknown (item ∷ items) = worst_of-unknown (item ∷ items)
