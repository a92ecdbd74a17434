-- ===== src/Proto/Laws.antt =====
-- The laws of the primitive readers and writers, in the form that every message's proof uses.
pub mod Bytes
pub mod Reads
pub mod Recodes
pub mod Flags
pub mod Writer
