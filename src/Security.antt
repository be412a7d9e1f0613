-- ===== src/Security.antt =====
-- Unlocking of the local console: src/intake/local_console/api/security.py.
pub mod Model
pub mod Unlocking
pub mod Capabilities
pub mod Outcome
pub mod Calls
pub mod Secrecy
pub mod SingleUse
mod Tests
