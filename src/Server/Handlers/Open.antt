-- ===== src/Server/Handlers/Open.antt =====
-- server/bridge.go: handleLopen, handleUOpen, handleLcreate and handleUCreate.
use ninep.Prelude.{
  ℕ, ◌/◌, ◌%◌, Bool, true, false, not, ◌&&◌, ◌||◌, Option, none, some, ◌==◌, leb, if◌then◌else◌,
}
use ninep.Proto.Base.{Bytes}
use ninep.Proto.Types.{Qid}
use ninep.P9l.Open.{Tlopen, Tlcreate}
use ninep.P9l.Messages.{rlopen, rlcreate}
use ninep.P9u.Open.{Topen, Tcreate}
use ninep.Server.Errno.{ebadf, enosys, einval}
use ninep.Server.Names.{is_empty, valid_name}
use ninep.Server.FidTable.{FidTable, mark_opened_with_handle, update_and_open, is_allocated}
use ninep.Server.Inode.{Inodes, add_child}
use ninep.Server.Conn.{
  Backend, Conn, Reply, reply, ropen, rcreate, Outcome, gives, fails, Handler, give, ◌>>=◌, ◌>>◌,
  guard, need, ask, change,
}
use ninep.Server.Conn.Run.{
  call, get_fid, inc_ref_node, dec_ref_node, release_file_handle, close_orphan_node, clamp_io_unit,
}

-- openFlagsFromUMode
unfoldable pub open_flags_from_u_mode : ℕ → Option ℕ
open_flags_from_u_mode mode = if leb mode 2 then some mode else none

-- `perm & bit != 0`, for a bit given by its value
abbrev pub has_bit : ℕ → ℕ → Bool
has_bit v bit = (v / bit) % 2 == 1

-- `perm & unsupported == 0`, the bits being DMDIR, DMSYMLINK, DMDEVICE, DMNAMEDPIPE and DMSOCKET
unfoldable pub valid_u_create_perm : ℕ → Bytes → Bool
valid_u_create_perm perm extension =
    is_empty extension
    && not (
        has_bit perm 0x80000000
        || has_bit perm 0x02000000
        || has_bit perm 0x00800000
        || has_bit perm 0x00200000
        || has_bit perm 0x00100000)

-- registerChild, on the inodes of the parent and of the child
unfoldable pub register_at : Option ℕ → Option ℕ → Bytes → Inodes → Inodes
register_at (some p) (some i) name t = add_child t p name i
register_at (some p) none name t = t
register_at none o name t = t

module _ (b : Backend) where
  open b use {World}

  unfoldable pub register_child : ℕ → ℕ → Bytes → Handler World (Unit {0})
  unfolding register_at
  register_child parent child name =
      change λ c. record c { inodes = register_at (b.inode parent) (b.inode child) name c.inodes }

  unfoldable pub marked :
      Option ℕ → Bool × FidTable ℕ ℕ → Conn World → Outcome (Unit {0}) × Conn World
  marked handle (true, ft) c = (gives tt, record c { fids = ft })
  marked handle (false, ft) c = (fails ebadf, release_file_handle b handle (record c { fids = ft }))

  -- markOpenedWithHandle; where it says no, the handle is released.
  unfoldable pub mark_opened : ℕ → Option ℕ → Handler World (Unit {0})
  unfolding marked
  mark_opened fid handle c = marked handle (mark_opened_with_handle c.fids fid handle) c

  -- The QID and the I/O unit for the response.
  unfoldable pub open_fid : ℕ → ℕ → Handler World (Qid × ℕ)
  unfolding mark_opened
  open_fid fid flags = do
    fs ← get_fid fid
    guard (is_allocated fs.state) ebadf
    open_it ← need (b.open_node fs.node) enosys
    r ← call b (open_it flags)
    qid ← ask (λ c. b.qid c.world fs.node)
    mark_opened fid r.0
    ask (λ c. (qid, clamp_io_unit r.1 c))

  unfoldable pub handle_lopen : Tlopen → Handler World Reply
  unfolding open_fid
  handle_lopen m = do
    r ← open_fid m.fid m.flags
    give (reply (rlopen (record { qid = r.0; io_unit = r.1 })))

  unfoldable pub handle_u_open : Topen → Handler World Reply
  unfolding open_fid open_flags_from_u_mode
  handle_u_open m = do
    flags ← need (open_flags_from_u_mode m.mode) enosys
    r ← open_fid m.fid flags
    give (ropen r.0 r.1)

  unfoldable pub rebound :
      ℕ → Option ℕ → Option ℕ × FidTable ℕ ℕ → Conn World → Outcome (Unit {0}) × Conn World
  rebound child handle (some prev, ft) c =
      (do inc_ref_node b child; _ ← dec_ref_node b prev; give tt) (record c { fids = ft })
  rebound child handle (none, ft) c = (
    fails ebadf,
    close_orphan_node b child (release_file_handle b handle (record c { fids = ft })),
  )

  -- updateAndOpen, and the transfer of the references.
  unfoldable pub move_to_child : ℕ → ℕ → Option ℕ → Handler World (Unit {0})
  unfolding rebound
  move_to_child fid child handle c =
      rebound child handle (update_and_open c.fids fid child handle) c

  -- What the two create handlers share: the name, the flags, the mode and the group.
  unfoldable pub create_in : ℕ → Bytes → ℕ → ℕ → ℕ → Handler World (Qid × ℕ)
  unfolding move_to_child register_child
  create_in fid name flags mode gid = do
    fs ← get_fid fid
    guard (is_allocated fs.state) ebadf
    guard (valid_name name) einval
    create ← need (b.create fs.node) enosys
    r ← call b (create name flags mode gid)
    move_to_child fid r.0 r.1
    register_child fs.node r.0 name
    ask (λ c. (b.qid c.world r.0, clamp_io_unit r.2 c))

  unfoldable pub handle_lcreate : Tlcreate → Handler World Reply
  unfolding create_in
  handle_lcreate m = do
    r ← create_in m.fid m.name m.flags m.mode m.gid
    give (reply (rlcreate (record { qid = r.0; io_unit = r.1 })))

  unfoldable pub handle_u_create : Tcreate → Handler World Reply
  unfolding create_in open_flags_from_u_mode valid_u_create_perm
  handle_u_create m = do
    flags ← need (open_flags_from_u_mode m.mode) enosys
    guard (valid_u_create_perm m.perm m.extension) enosys
    r ← create_in m.fid m.name flags m.perm 0
    give (rcreate r.0 r.1)
