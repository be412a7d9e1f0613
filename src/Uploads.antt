-- ===== src/Uploads.antt =====
-- Uploads to the hosted backend: src/intake/services/upload_service.py with its validation and
-- storage.
pub mod Model
pub mod Validation
pub mod Storage
pub mod Service
pub mod Limits
pub mod Bounds
pub mod Ownerless
mod Tests
