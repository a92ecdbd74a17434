-- ===== src/Memfs.antt =====
-- server/memfs/: the in-memory file system.
pub mod File
pub mod Dir
pub mod Served
