-- ===== src/Server/Handlers/Xattr.antt =====
-- server/bridge.go: handleXattrwalk and handleXattrcreate.
use ninep.Prelude.{
  ℕ, ◌%◌, ◌^◌, List, [], ◌∷◌, ◌++◌, Option, none, some, length, leb, ◌==◌, if◌then◌else◌,
}
use ninep.Proto.Base.{Bytes}
use ninep.P9l.Xattr.{Txattrwalk, Txattrcreate}
use ninep.P9l.Messages.{rxattrwalk, rxattrcreate}
use ninep.Server.Errno.{ebadf, enosys, einval}
use ninep.Server.Names.{is_empty}
use ninep.Server.Fid.{xattr_read, xattr_write, new_fid}
use ninep.Server.FidTable.{is_allocated}
use ninep.Server.Conn.{Call, Backend, Reply, reply, Handler, give, ◌>>=◌, ◌>>◌, guard, need, ask}
use ninep.Server.Conn.Run.{Fid, call, get_fid, put_fid, add_fid, inc_ref_node}

-- The names of the attributes, each followed by a zero byte.
unfoldable pub name_list : List Bytes → Bytes
name_list [] = []
name_list (name ∷ names) = name ++ (0 ∷ name_list names)

module _ (b : Backend) where
  open b use {World}

  unfoldable pub add_xattr_read_fid : ℕ → ℕ → Bytes → Bytes → Handler World Reply
  add_xattr_read_fid fid node name payload = do
    add_fid fid (record (new_fid node []) {
      state = xattr_read;
      xattr_node = some node;
      xattr_name = name;
      xattr_data = payload;
    })
    inc_ref_node b node
    give (reply (rxattrwalk (record { size = length payload % 2 ^ 64 })))

  unfoldable pub xattrwalk_list : Txattrwalk → ℕ → Handler World Reply
  unfolding add_xattr_read_fid name_list
  xattrwalk_list m node = do
    list ← need (b.list_xattrs node) enosys
    names ← call b list
    add_xattr_read_fid m.new_fid node [] (name_list names)

  unfoldable pub xattrwalk_get : Txattrwalk → ℕ → Handler World Reply
  unfolding add_xattr_read_fid
  xattrwalk_get m node = do
    get_it ← need (b.get_xattr node) enosys
    payload ← call b (get_it m.name)
    add_xattr_read_fid m.new_fid node m.name payload

  unfoldable pub xattrwalk_simple : Txattrwalk → ℕ → Handler World Reply
  unfolding xattrwalk_list xattrwalk_get
  xattrwalk_simple m node = if is_empty m.name then xattrwalk_list m node else xattrwalk_get m node

  unfoldable pub xattrwalk_by :
      Option (Bytes → Call World Bytes) → Txattrwalk → ℕ → Handler World Reply
  unfolding xattrwalk_simple
  xattrwalk_by none m node = xattrwalk_simple m node
  xattrwalk_by (some raw) m node = do
    payload ← call b (raw m.name)
    add_xattr_read_fid m.new_fid node m.name payload

  unfoldable pub handle_xattrwalk : Txattrwalk → Handler World Reply
  unfolding xattrwalk_by
  handle_xattrwalk m = do fs ← get_fid m.fid; xattrwalk_by (b.raw_xattrwalk fs.node) m fs.node

  -- The fid in the state fidXattrWrite, with an empty buffer.
  unfoldable pub to_xattr_write : Txattrcreate → Fid → Option ℕ → Fid
  to_xattr_write m fs writer = record fs {
    state = xattr_write;
    xattr_node = some fs.node;
    xattr_name = m.name;
    xattr_size = m.attr_size;
    xattr_flags = m.flags;
    xattr_data = [];
    xattr_writer = writer;
  }

  unfoldable pub start_write : Txattrcreate → Fid → Option ℕ → Handler World Reply
  unfolding to_xattr_write
  start_write m fs writer = do
    put_fid m.fid (to_xattr_write m fs writer)
    give (reply (rxattrcreate (record {})))

  -- Is there an interface for what the clunk will do?
  unfoldable pub can_commit : ℕ → ℕ → Handler World (Unit {0})
  can_commit size node =
      if size == 0
      then (need (b.remove_xattr node) enosys >>= λ _. give tt)
      else (need (b.set_xattr node) enosys >>= λ _. give tt)

  unfoldable pub xattrcreate_by :
      Option (Bytes → ℕ → ℕ → Call World (Option ℕ)) → Txattrcreate → Fid → Handler World Reply
  unfolding start_write can_commit
  xattrcreate_by (some raw) m fs = do
    writer ← call b (raw m.name m.attr_size m.flags)
    start_write m fs writer
  xattrcreate_by none m fs = do can_commit m.attr_size fs.node; start_write m fs none

  unfoldable pub handle_xattrcreate : Txattrcreate → Handler World Reply
  unfolding xattrcreate_by
  handle_xattrcreate m = do
    fs ← get_fid m.fid
    guard (is_allocated fs.state) ebadf
    msize ← ask (λ c. c.msize)
    guard (leb m.attr_size msize) einval
    xattrcreate_by (b.raw_xattrcreate fs.node) m fs
