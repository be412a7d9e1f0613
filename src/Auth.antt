-- ===== src/Auth.antt =====
-- Authentication on the hosted backend. `Sessions` is the session table of src/intake/storage/
-- repositories.py and src/intake/services/session_service.py, with `Lookup` and `Revocation` as
-- proofs; `Codes` is src/intake/services/email_verification_service.py over its tables, with
-- `Verification`, `Consumption` and `Attempts` as proofs.
mod Tests
pub mod Sessions
pub mod Codes
pub mod Verification
pub mod Consumption
pub mod Attempts
pub mod Lookup
pub mod Revocation
