-- ===== src/Costs.antt =====
-- The cost ledger: src/intake/costs/. `Model` is its data and state, `Totals` the recalculation of
-- a scenario, `Scenarios` the edits of scenarios and line items.
mod Tests
pub mod Model
pub mod Totals
pub mod Scenarios
pub mod Receipts
pub mod Sums
pub mod Ledger
pub mod Reach
pub mod Breakdown
