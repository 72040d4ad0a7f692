-- ===== src/Vfs.antt =====
-- The file system abstraction of crates/smfs-core/src/vfs: paths, errors, attributes, and the
-- in-memory implementation.
pub mod Error
pub mod Path
pub mod Types
pub mod Mem
