-- ===== src/Server/Conn/Run.antt =====
-- How a handler's parts run: the calls of a node's code, and the methods of the table and of the inodes.
use ninep.Prelude.{
  ℕ, ◌+◌, ◌-◌, ◌%◌, ◌^◌, ◌∷◌, Bool, true, false, Option, none, some, ltb, ◌||◌, ◌==◌, if◌then◌else◌,
}
use ninep.Proto.Base.{header_size}
use ninep.Server.Errno.{errno_from_error, ebadf, emfile}
use ninep.Server.Fid.{
  FidState, FidStatus, allocated, opened, xattr_read, xattr_write, begin_io, end_io, finish_clunk,
}
use ninep.Server.FidTable.{FidTable, FidError, fid_in_use, fid_limit_exceeded, get, add, write}
use ninep.Server.Inode.{Inodes, inc_ref, dec_ref}
use ninep.Server.Conn.{
  Answer, returns, errors, Call, Backend, Conn, Outcome, gives, fails, Handler, need,
}

abbrev pub Fid : Type 0
Fid = FidState ℕ ℕ

abbrev pub is_state : FidStatus → FidStatus → Bool
is_state allocated allocated = true
is_state opened opened = true
is_state xattr_read xattr_read = true
is_state xattr_write xattr_write = true
is_state s t = false

unfoldable pub errno_of_add : FidError → ℕ
errno_of_add fid_limit_exceeded = emfile
errno_of_add fid_in_use = ebadf

unfoldable pub inc_at : Option ℕ → Inodes → Inodes
inc_at none t = t
inc_at (some i) t = inc_ref t i

-- A node with no inode cannot be tracked: every reference counts as the last.
unfoldable pub dec_at : Option ℕ → Inodes → Bool × Inodes
dec_at none t = (true, t)
dec_at (some i) t = dec_ref t i

unfoldable pub unreferenced : Option ℕ → Inodes → Bool
unreferenced none t = true
unreferenced (some i) t = t.refs i == 0

module _ {World : Type 0} where
  unfoldable pub added :
      Option FidError × FidTable ℕ ℕ → Conn World → Outcome (Unit {0}) × Conn World
  unfolding errno_of_add
  added (none, ft) c = (gives tt, record c { fids = ft })
  added (some e, ft) c = (fails (errno_of_add e), record c { fids = ft })

  -- fidTable.add, with the two error messages that all its callers make of it.
  unfoldable pub add_fid : ℕ → Fid → Handler World (Unit {0})
  unfolding added
  add_fid fid fs c = added (add c.fids fid fs c.max_fids) c

  -- `fs := c.fids.get(fid); if fs == nil { return c.errorMsg(proto.EBADF) }`
  unfoldable pub get_fid : ℕ → Handler World Fid
  unfolding need
  get_fid fid c = need (get c.fids fid) ebadf c

  -- A write to the fields of the state at `fid`.
  unfoldable pub put_fid : ℕ → Fid → Handler World (Unit {0})
  put_fid fid fs c = (gives tt, record c { fids = write fid fs c.fids })

  unfoldable pub release_by : Option (World → World) → ℕ → Conn World → Conn World
  release_by none h c = c
  release_by (some f) h c = record c { world = f c.world; released = h ∷ c.released }

  unfoldable pub close_by : Option (World → World) → ℕ → Conn World → Conn World
  close_by none n c = c
  close_by (some f) n c = record c { world = f c.world; closed = n ∷ c.closed }

  -- `c.msize - proto.HeaderSize - 4`, in uint32
  unfoldable pub max_payload : Conn World → ℕ
  max_payload c = (c.msize + 2 ^ 32 - header_size - 4) % 2 ^ 32

  unfoldable pub clamp_io_unit : ℕ → Conn World → ℕ
  unfolding max_payload
  clamp_io_unit hint c = if hint == 0 || ltb (max_payload c) hint then max_payload c else hint

module _ (b : Backend) where
  open b use {World}

  -- A call of a node's code, whose error becomes the reply by errnoFromError.
  unfoldable pub answered : {A : Type 0} → Answer A × World → Conn World → Outcome A × Conn World
  answered (returns a, w) c = (gives a, record c { world = w })
  answered (errors e, w) c = (fails (errno_from_error b.errno_from_unix e), record c { world = w })

  unfoldable pub call : {A : Type 0} → Call World A → Handler World A
  unfolding answered
  call f c = answered (f c.world) c

  unfoldable pub inc_ref_node : ℕ → Handler World (Unit {0})
  unfolding inc_at
  inc_ref_node node c = (gives tt, record c { inodes = inc_at (b.inode node) c.inodes })

  unfoldable pub dec_ref_node : ℕ → Handler World Bool
  unfolding dec_at
  dec_ref_node node c = (
    gives (dec_at (b.inode node) c.inodes).0,
    record c { inodes = (dec_at (b.inode node) c.inodes).1 },
  )

  unfoldable pub release_file_handle : Option ℕ → Conn World → Conn World
  unfolding release_by
  release_file_handle none c = c
  release_file_handle (some h) c = release_by (b.release_handle h) h c

  unfoldable pub close_orphan_node : ℕ → Conn World → Conn World
  unfolding close_by
  close_orphan_node n c = close_by (b.close n) n c

  unfoldable pub close_unbound_node : ℕ → Conn World → Conn World
  unfolding unreferenced close_orphan_node
  close_unbound_node n c = if unreferenced (b.inode n) c.inodes then close_orphan_node n c else c

  unfoldable pub release_now : Fid → Bool → Conn World → Conn World
  unfolding release_file_handle close_orphan_node
  release_now fs close_node c =
      let d = release_file_handle fs.handle c in
      if close_node then close_orphan_node fs.node d else d

  unfoldable pub release_if_due : Fid → Option Bool → Conn World → Conn World
  unfolding release_now
  release_if_due fs none c = c
  release_if_due fs (some close_node) c = release_now fs close_node c

  -- finishClunk on a state that has left the table.
  unfoldable pub finish_clunked : Fid → Bool → Conn World → Conn World
  unfolding release_if_due
  finish_clunked fs last c = release_if_due (finish_clunk fs last).0 (finish_clunk fs last).1 c

  unfoldable pub ended_at : ℕ → Option Fid → Conn World → Conn World
  unfolding release_if_due
  ended_at fid none c = c
  ended_at fid (some fs) c =
      release_if_due (end_io fs).0 (end_io fs).1
        (record c { fids = write fid (end_io fs).0 c.fids })

  -- `if !fs.beginIO() { return c.errorMsg(proto.EBADF) }; defer fs.endIO(...)`, and the rest.
  unfoldable pub with_io : {A : Type 0} → ℕ → Fid → Handler World A → Handler World A
  unfolding ended_at
  with_io fid fs body c =
      if (begin_io fs).0
      then (let r = body (record c { fids = write fid (begin_io fs).1 c.fids }) in
          (r.0, ended_at fid (get r.1.fids fid) r.1))
      else (fails ebadf, c)
