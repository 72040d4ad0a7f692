-- ===== src/Cache.antt =====
-- The local cache of a mount, crates/smfs-core/src/cache.
pub mod Noise
pub mod Op
pub mod Basename
pub mod Queue
pub mod File
pub mod Hydration
pub mod Fs
pub mod Profile
