-- ===== src/Server/Handlers/Dispatch.antt =====
-- server/dispatch.go: dispatch, at the requests of both dialects. Tversion and Tflush do not come here
-- with a reply of their own: the read loop takes the one, and the other waits on a channel.
pub mod Names
pub mod References
use ninep.Prelude.{ℕ}
use ninep.Proto.Messages.{BaseMessage, tattach, twalk, tclunk, tremove, tread, twrite}
use ninep.P9l.Messages.{
  Message, shared, tlopen, tgetattr, tsetattr, treaddir, tlcreate, tmkdir, tsymlink, tlink, tmknod,
  treadlink, tstatfs, tfsync, tunlinkat, trenameat, trename, tlock, tgetlock, txattrwalk,
  txattrcreate,
}
use ninep.P9u.Open.{Topen, Tcreate, Tstat}
use ninep.P9u.Stat.{Twstat}
use ninep.Server.Errno.{enosys}
use ninep.Server.Conn.{Backend, Reply, Handler, fail}
use ninep.Server.Handlers.Walk.{handle_attach, handle_walk}
use ninep.Server.Handlers.Clunk.{handle_clunk, handle_remove}
use ninep.Server.Handlers.Open.{handle_lopen, handle_u_open, handle_lcreate, handle_u_create}
use ninep.Server.Handlers.Io.{handle_read, handle_write, handle_fsync}
use ninep.Server.Handlers.Readdir.{handle_readdir}
use ninep.Server.Handlers.Attributes.{
  handle_getattr, handle_setattr, handle_u_stat, handle_readlink, handle_statfs, handle_lock,
  handle_getlock,
}
use ninep.Server.Handlers.Entries.{
  handle_mkdir, handle_symlink, handle_link, handle_mknod, handle_unlinkat, handle_renameat,
  handle_rename,
}
use ninep.Server.Handlers.Xattr.{handle_xattrwalk, handle_xattrcreate}

-- A message of 9P2000.L or of both dialects, or one of 9P2000.u alone.
pub data Request : Type 0 where
  message : Message → Request
  u_open : Topen → Request
  u_create : Tcreate → Request
  u_stat : Tstat → Request
  u_wstat : Twstat → Request

module _ (b : Backend) where
  open b use {World}

  unfoldable pub dispatch_shared : BaseMessage → Handler World Reply
  unfolding handle_attach handle_walk handle_clunk handle_remove handle_read handle_write
  dispatch_shared (tattach m) = handle_attach b m
  dispatch_shared (twalk m) = handle_walk b m
  dispatch_shared (tclunk m) = handle_clunk b m
  dispatch_shared (tremove m) = handle_remove b m
  dispatch_shared (tread m) = handle_read b m
  dispatch_shared (twrite m) = handle_write b m
  dispatch_shared m = fail enosys

  unfoldable pub dispatch_l : Message → Handler World Reply
  unfolding dispatch_shared
  dispatch_l (shared m) = dispatch_shared m
  dispatch_l (tlopen m) = handle_lopen b m
  dispatch_l (tgetattr m) = handle_getattr b m
  dispatch_l (tsetattr m) = handle_setattr b m
  dispatch_l (treaddir m) = handle_readdir b m
  dispatch_l (tlcreate m) = handle_lcreate b m
  dispatch_l (tmkdir m) = handle_mkdir b m
  dispatch_l (tsymlink m) = handle_symlink b m
  dispatch_l (tlink m) = handle_link b m
  dispatch_l (tmknod m) = handle_mknod b m
  dispatch_l (treadlink m) = handle_readlink b m
  dispatch_l (tstatfs m) = handle_statfs b m
  dispatch_l (tfsync m) = handle_fsync b m
  dispatch_l (tunlinkat m) = handle_unlinkat b m
  dispatch_l (trenameat m) = handle_renameat b m
  dispatch_l (trename m) = handle_rename b m
  dispatch_l (tlock m) = handle_lock b m
  dispatch_l (tgetlock m) = handle_getlock b m
  dispatch_l (txattrwalk m) = handle_xattrwalk b m
  dispatch_l (txattrcreate m) = handle_xattrcreate b m
  dispatch_l m = fail enosys

  unfoldable pub dispatch : Request → Handler World Reply
  unfolding dispatch_l
  dispatch (message m) = dispatch_l m
  dispatch (u_open m) = handle_u_open b m
  dispatch (u_create m) = handle_u_create b m
  dispatch (u_stat m) = handle_u_stat b m
  dispatch (u_wstat m) = fail enosys
