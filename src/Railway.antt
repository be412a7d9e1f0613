-- ===== src/Railway.antt =====
-- The dry run of a deployment to Railway: src/intake/deploy/railway_dry_run.py.
pub mod Specs
pub mod Detection
pub mod Plans
pub mod Clean
pub mod Sound
mod Tests
