-- ===== src/Sync.antt =====
-- The sync engine of crates/smfs-core/src/sync.
pub mod Db
pub mod Api
pub mod Mime
pub mod Push
pub mod Listing
pub mod Scan
pub mod Pull
pub mod Engine
mod Tests
