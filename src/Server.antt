-- ===== src/Server.antt =====
-- Package server: the state of a fid, the table of fids of a connection, the requests in flight, the
-- inode tree, and the handlers of the requests.
pub mod Errno
pub mod Names
pub mod Fid
pub mod FidTable
pub mod Inflight
pub mod Inode
pub mod Conn
pub mod Handlers
pub mod Session
