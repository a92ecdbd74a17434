-- ===== src/Proto.antt =====
-- Package proto: the wire types, the primitive readers and writers, the messages and the frames.
pub mod Base
pub mod Types
pub mod Encode
pub mod Decode
pub mod Laws
pub mod Session
pub mod Walk
pub mod Transfer
pub mod Frame
pub mod MessageType
pub mod Messages
pub mod Dirent
