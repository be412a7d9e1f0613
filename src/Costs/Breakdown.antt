-- ===== src/Costs/Breakdown.antt =====
-- What a receipt adds up to: `generate_receipt` of src/intake/costs/calculator.py.
use mathlib.Core.Int.{+ℤ_comm, +ℤ_idl}
use intake.Prelude.{String, ◌≡◌, refl, ap, ◌∙◌, none, some, []}
use intake.Prelude.Dict.{get, get-put_self}
use intake.Prelude.Result.{Result, ok, err}
use intake.Costs.Model.{CostEstimateScenario, VendorCostReceipt, Calculator}
use intake.Costs.Totals.{no_money}
use intake.Costs.Scenarios.{CostError, type_error}
use intake.Costs.Receipts.{
  ReceiptStamp, ReceiptTerms, add_some, new_receipt, receipt_with, generate_receipt,
}
use intake.Costs.Sums.{total_all, total_values, total_if-split, total_values-break_down}
use intake.Costs.Ledger.{IsTotalled, unpriced, priced, IsLedger}

-- A receipt's totals agree, and with the scenario's line items.
pub record IsBalanced (s : CostEstimateScenario) (r : VendorCostReceipt) : Type 0 where
  pub providers : r.provider_costs_total_usd ≡ some (total_all s.line_items)
  pub total : r.total_usd ≡ some (total_all s.line_items)
  pub breakdown : total_values r.provider_costs_breakdown ≡ total_all s.line_items
  pub intake : r.intake_costs_total_usd ≡ some no_money

-- The answer to a request for a receipt of a stored scenario, with the new state.
pub data Billed (s : CostEstimateScenario) (c : Calculator)
    : Result CostError VendorCostReceipt × Calculator → Type 0 where
  billed :
      (r : VendorCostReceipt) (c' : Calculator)
      → IsBalanced s r
      → get c'.receipts r.receipt_id ≡ some r
      → c'.scenarios ≡ c.scenarios
      → Billed s c (ok r, c')
  unbillable : s.line_items ≡ [] → s.total_usd ≡ none → Billed s c (err type_error, c)

module _ (stamp : ReceiptStamp) (id : String) (terms : ReceiptTerms) (s : CostEstimateScenario)
    (c : Calculator) where
  receipt_with-Billed :
      IsTotalled s
      → Billed s c
          (receipt_with (add_some s.total_monthly_usd s.total_one_time_usd) s stamp id terms c)
  unfolding new_receipt
  receipt_with-Billed (unpriced items m o t) = rw m (unbillable items t)
  receipt_with-Billed (priced m o t) =
      rw (m, o)
        (billed _ _
          (record {
            providers = ap some (total_if-split s.line_items);
            total = t ∙ ap some (total_if-split s.line_items);
            breakdown =
                total_values-break_down s.line_items []
                ∙ +ℤ_comm (total_all s.line_items) no_money
                ∙ +ℤ_idl (total_all s.line_items);
            intake = refl;
          })
          (get-put_self c.receipts stamp.id _) refl)

  -- A stored scenario of a sound ledger gets a receipt whose provider total, total and sum of the
  -- breakdown are the total of its line items; it is stored. A scenario that has never had a line
  -- item gets a TypeError instead, and nothing changes.
  pub generate_receipt-Billed :
      IsLedger c → get c.scenarios id ≡ some s → Billed s c (generate_receipt stamp id terms c)
  unfolding generate_receipt
  generate_receipt-Billed ledger found = rw found (receipt_with-Billed (ledger id s found).totals)
