-- ===== src/Server/Handlers/References.antt =====
-- The handlers and the references on the inodes.
pub mod Plain
pub mod Walk
pub mod Open
pub mod Clunk
