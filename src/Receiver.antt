-- ===== src/Receiver.antt =====
-- The local upload receiver: src/intake/local_console/receiver/. `Model` has its data, `Paths` the
-- names on disk, `Disk` the files, `Sessions`, `Admission`, `Uploads` and `Cleanup` the methods of
-- LocalReceiverService, and the other children their properties.
mod Tests
pub mod Model
pub mod Paths
pub mod Disk
pub mod Sessions
pub mod Admission
pub mod Uploads
pub mod Cleanup
pub mod Invariant
pub mod Completion
pub mod Allowlist
pub mod Reach
pub mod Stored
pub mod Failures
pub mod Expired
