-- ===== src/Server/Handlers/Clunk.antt =====
-- server/dispatch.go: handleClunk, handleRemove and handleFlush's reply.
use ninep.Prelude.{ℕ, Bool, not, Option, none, some, length, ◌==◌, if◌then◌else◌}
use ninep.Proto.Base.{Bytes}
use ninep.Proto.Walk.{Tclunk, Tremove}
use ninep.Proto.Messages.{rclunk, rremove}
use ninep.P9l.Messages.{shared}
use ninep.Server.Errno.{ebadf, eio, enosys, einval}
use ninep.Server.Names.{is_empty}
use ninep.Server.Fid.{xattr_write}
use ninep.Server.FidTable.{FidTable, clunk}
use ninep.Server.Inode.{name_of, remove_child}
use ninep.Server.Conn.{
  Call, Backend, Conn, Reply, reply, Outcome, gives, fails, Handler, give, fail, ◌>>=◌, ◌>>◌, guard,
  need, ask, change,
}
use ninep.Server.Conn.Run.{Fid, call, dec_ref_node, finish_clunked, is_state}

module _ {World : Type 0} where
  unfoldable pub clunked : Option Fid × FidTable ℕ ℕ → Conn World → Outcome Fid × Conn World
  clunked (some fs, ft) c = (gives fs, record c { fids = ft })
  clunked (none, ft) c = (fails ebadf, record c { fids = ft })

  -- `fs := c.fids.clunk(fid); if fs == nil { return c.errorMsg(proto.EBADF) }`
  unfoldable pub take_fid : ℕ → Handler World Fid
  unfolding clunked
  take_fid fid c = clunked (clunk c.fids fid) c

  abbrev pub done_clunk : Handler World Reply
  done_clunk = give (reply (shared (rclunk (record {}))))

module _ (b : Backend) where
  open b use {World}

  unfoldable pub remove_xattr_of :
      Option (Bytes → Call World (Unit {0})) → Bytes → Handler World Reply
  remove_xattr_of none name = done_clunk
  remove_xattr_of (some remove) name = do _ ← call b (remove name); done_clunk

  -- The node that xattrcreate recorded. It is never nil in this state.
  unfoldable pub xattr_node_of : Fid → ℕ
  xattr_node_of fs = elim fs.xattr_node [ none ↦ fs.node | some node ↦ node ]

  unfoldable pub commit_simple : Fid → Handler World Reply
  unfolding remove_xattr_of xattr_node_of
  commit_simple fs =
      if fs.xattr_size == 0
      then remove_xattr_of (b.remove_xattr (xattr_node_of fs)) fs.xattr_name
      else do
        guard (length fs.xattr_data == fs.xattr_size) eio
        set ← need (b.set_xattr (xattr_node_of fs)) enosys
        _ ← call b (set fs.xattr_name fs.xattr_data fs.xattr_flags)
        done_clunk

  -- The clunk of a fid in the state fidXattrWrite.
  unfoldable pub commit_xattr : Option ℕ → Fid → Handler World Reply
  unfolding commit_simple
  commit_xattr (some writer) fs = do _ ← call b (b.writer_commit writer); done_clunk
  commit_xattr none fs = commit_simple fs

  unfoldable pub clunk_state : Fid → Bool → Handler World Reply
  unfolding commit_xattr
  clunk_state fs last =
      if is_state fs.state xattr_write
      then commit_xattr fs.xattr_writer fs
      else do change (finish_clunked b fs last); done_clunk

  unfoldable pub handle_clunk : Tclunk → Handler World Reply
  unfolding take_fid clunk_state
  handle_clunk m = do fs ← take_fid m.fid; last ← dec_ref_node b fs.node; clunk_state fs last

  unfoldable pub unlink_from : ℕ → ℕ → Handler World (Unit {0})
  unlink_from i p = do
    name ← ask (λ c. name_of i (c.inodes.children p))
    guard (not (is_empty name)) einval
    unlink ← need (b.unlink (b.node_of p)) enosys
    _ ← call b (unlink name 0)
    change (λ c. record c { inodes = remove_child c.inodes p name })

  unfoldable pub remove_via_inode_tree : ℕ → Handler World (Unit {0})
  unfolding unlink_from
  remove_via_inode_tree node = do
    i ← need (b.inode node) enosys
    p ← ask (λ c. c.inodes.parent i)
    q ← need p enosys
    unlink_from i q

  -- The fid is clunked whether or not the removal succeeded.
  unfoldable pub clunk_removed : Fid → Outcome (Unit {0}) × Conn World → Outcome Reply × Conn World
  clunk_removed fs (o, c) =
      (do
        last ← dec_ref_node b fs.node
        change (finish_clunked b fs last)
        elim o [ gives u ↦ give (reply (shared (rremove (record {})))) | fails e ↦ fail e ])
        c

  unfoldable pub remove_fid : Fid → Handler World Reply
  unfolding remove_via_inode_tree clunk_removed
  remove_fid fs c = clunk_removed fs (remove_via_inode_tree fs.node c)

  unfoldable pub handle_remove : Tremove → Handler World Reply
  unfolding take_fid remove_fid
  handle_remove m = do fs ← take_fid m.fid; remove_fid fs
