-- ===== src/Server/Handlers.antt =====
-- Package server: the handlers.
pub mod Walk
pub mod Clunk
pub mod Open
pub mod Io
pub mod Readdir
pub mod Attributes
pub mod Entries
pub mod Xattr
pub mod Dispatch
pub mod References
