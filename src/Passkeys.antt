-- ===== src/Passkeys.antt =====
-- Passkeys: src/intake/services/passkey_service.py, its tables and its endpoints.
mod Tests
pub mod Model
pub mod Challenges
pub mod Credentials
pub mod Registration
pub mod Login
pub mod SingleUse
pub mod Ceremonies
pub mod Options
pub mod Replay
pub mod Entered
pub mod Entry
pub mod Revoked
pub mod Endpoints
pub mod Visits
