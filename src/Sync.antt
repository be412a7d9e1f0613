-- ===== src/Sync.antt =====
-- Synchronisation of the hosted backend with an operator's machine: src/intake/sync/models.py,
-- src/intake/services/signing_service.py, src/intake/hosted/api/sync.py and the local console's
-- client, review service and unlock window.
mod Tests
pub mod Model
pub mod Signing
pub mod Actions
pub mod Verified
pub mod Outcome
pub mod Replay
pub mod Unlock
pub mod Console
pub mod Hidden
pub mod Journey
