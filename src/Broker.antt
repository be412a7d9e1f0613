-- ===== src/Broker.antt =====
-- The upload broker of the hosted backend: src/intake/services/upload_session_broker.py. `Model`
-- is its data and state, `Grants` `create_upload_route`.
mod Tests
pub mod Model
pub mod Grants
pub mod Receipts
pub mod Listing
pub mod Access
pub mod Checks
pub mod Matches
pub mod Stored
pub mod Acceptance
pub mod Owners
pub mod Soundness
pub mod Reach
pub mod Views
pub mod Order
