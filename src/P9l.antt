-- ===== src/P9l.antt =====
-- Package p9l: the messages of the 9P2000.L dialect.
pub mod Open
pub mod Make
pub mod Rename
pub mod Attributes
pub mod Xattr
pub mod Lock
pub mod Messages
pub mod Codec
