-- ===== src/Server/Handlers/Walk.antt =====
-- server/dispatch.go: handleAttach and handleWalk.
use ninep.Prelude.{
  ℕ, ◌/◌, ◌%◌, List, [], ◌∷◌, ◌++◌, Bool, true, false, not, ◌&&◌, Option, none, some, length, ◌==◌,
  if◌then◌else◌,
}
use ninep.Proto.Base.{Bytes, no_fid}
use ninep.Proto.Types.{Qid}
use ninep.Proto.Session.{Tattach}
use ninep.Proto.Walk.{Twalk}
use ninep.Proto.Messages.{rattach, rwalk}
use ninep.P9l.Messages.{shared}
use ninep.Path.{clean, join}
use ninep.Server.Errno.{errno_from_error, enoent, enotdir, enosys, einval}
use ninep.Server.Names.{is_empty, all_valid, slash}
use ninep.Server.Fid.{new_fid}
use ninep.Server.FidTable.{FidTable, update}
use ninep.Server.Conn.{
  Answer, returns, errors, Call, Backend, Conn, Reply, reply, Outcome, gives, fails, Handler, give,
  fail, ◌>>=◌, ◌>>◌, guard, need, ask, change,
}
use ninep.Server.Conn.Run.{
  Fid, call, get_fid, add_fid, inc_ref_node, dec_ref_node, close_unbound_node,
}

-- `qid.Type & proto.QTDIR != 0`
unfoldable pub is_dir : Qid → Bool
is_dir q = (q.type / 128) % 2 == 1

module _ (b : Backend) where
  open b use {World}

  unfoldable pub resolve_aname : Option (Bytes → Option ℕ) → Bytes → Handler World ℕ
  resolve_aname none aname = give b.root
  resolve_aname (some anames) aname =
      if is_empty aname then give b.root else need (anames aname) enoent

  unfoldable pub resolve_root : Option (Tattach → Call World ℕ) → Tattach → Handler World ℕ
  unfolding resolve_aname
  resolve_root (some attach) m = call b (attach m)
  resolve_root none m = resolve_aname b.anames m.aname

  unfoldable pub attach_path : Bytes → Bytes
  attach_path aname = if is_empty aname then slash ∷ [] else slash ∷ aname

  unfoldable pub handle_attach : Tattach → Handler World Reply
  unfolding resolve_root attach_path
  handle_attach m = do
    guard (m.afid == no_fid) enosys
    node ← resolve_root b.attacher m
    add_fid m.fid (new_fid node (attach_path m.aname))
    inc_ref_node b node
    qid ← ask (λ c. b.qid c.world node)
    give (reply (shared (rattach (record { qid = qid }))))

  -- `current != walkStart && current != child`
  unfoldable pub step_past : ℕ → ℕ → ℕ → Conn World → Conn World
  step_past start current child c =
      if not (current == start) && not (current == child) then close_unbound_node b current c else c

  -- The first element that cannot be walked is an error; a later one ends the walk (`none`).
  unfoldable pub stop_walk : Bool → ℕ → Handler World (Option (ℕ × Qid))
  stop_walk true e = fail e
  stop_walk false e = give none

  unfoldable pub found :
      ℕ → Bool → ℕ → Answer ℕ × World → Conn World → Outcome (Option (ℕ × Qid)) × Conn World
  unfolding step_past stop_walk
  found start first current (returns child, w) c =
      (gives (some (child, b.qid w child)), step_past start current child (record c { world = w }))
  found start first current (errors e, w) c =
      stop_walk first (errno_from_error b.errno_from_unix e) (record c { world = w })

  unfoldable pub looked_up :
      ℕ → Bool → ℕ → Option (Bytes → Call World ℕ) → Bytes → Handler World (Option (ℕ × Qid))
  unfolding found stop_walk
  looked_up start first current none name c = stop_walk first enotdir c
  looked_up start first current (some look_up) name c =
      found start first current (look_up name c.world) c

  -- One round of the loop: the child that the name leads to, with its QID.
  unfoldable pub walk_step : ℕ → Bool → ℕ → Bytes → Handler World (Option (ℕ × Qid))
  unfolding is_dir looked_up stop_walk
  walk_step start first current name c =
      if is_dir (b.qid c.world current)
      then looked_up start first current (b.lookup current) name c
      else stop_walk first enotdir c

  -- The QIDs found, and the last node.
  unfoldable pub walk_loop : ℕ → Bool → ℕ → List Qid → List Bytes → Handler World (List Qid × ℕ)
  unfolding walk_step
  walk_loop start first current qids [] = give (qids, current)
  walk_loop start first current qids (name ∷ names) = do
    r ← walk_step start first current name
    elim r [
      | none ↦ give (qids, current)
      | some next ↦ walk_loop start false next.0 (qids ++ (next.1 ∷ [])) names
    ]

  unfoldable pub close_resolved : ℕ → ℕ → Conn World → Conn World
  close_resolved start current c = if current == start then c else close_unbound_node b current c

  -- What follows fidTable.update in an in-place walk.
  unfoldable pub updated :
      ℕ → ℕ → Option ℕ × FidTable ℕ ℕ → Conn World → Outcome (Unit {0}) × Conn World
  unfolding close_resolved
  updated start current (some prev, ft) c =
      (do inc_ref_node b current; _ ← dec_ref_node b prev; give tt) (record c { fids = ft })
  updated start current (none, ft) c =
      (gives tt, close_resolved start current (record c { fids = ft }))

  unfoldable pub rebind : ℕ → Fid → ℕ → Bytes → Handler World (Unit {0})
  unfolding updated
  rebind fid src current path c = updated src.node current (update c.fids fid current path) c

  -- add, whose failure closes the node that the walk found.
  unfoldable pub bound : ℕ → ℕ → Outcome (Unit {0}) × Conn World → Outcome (Unit {0}) × Conn World
  unfolding close_resolved
  bound start current (gives u, c) = inc_ref_node b current c
  bound start current (fails e, c) = (fails e, close_resolved start current c)

  unfoldable pub bind_new : ℕ → Fid → ℕ → Bytes → Handler World (Unit {0})
  unfolding bound
  bind_new new_fid_number src current path c =
      bound src.node current (add_fid new_fid_number (new_fid current path) c)

  unfoldable pub walk_path : Bytes → List Bytes → Bytes
  walk_path path names = clean (path ++ (slash ∷ join names))

  unfoldable pub finish_walk : Twalk → Fid → List Qid → ℕ → Handler World (Unit {0})
  unfolding rebind bind_new walk_path close_resolved
  finish_walk m src qids current =
      if length qids == length m.names
      then (if m.fid == m.new_fid
          then rebind m.fid src current (walk_path src.path m.names)
          else bind_new m.new_fid src current (walk_path src.path m.names))
      else change (close_resolved src.node current)

  unfoldable pub clone_fid : Twalk → Fid → Handler World Reply
  clone_fid m src =
      if m.fid == m.new_fid then give (reply (shared (rwalk (record { qids = [] })))) else do
        add_fid m.new_fid (new_fid src.node src.path)
        inc_ref_node b src.node
        give (reply (shared (rwalk (record { qids = [] }))))

  unfoldable pub walk_names : Twalk → Fid → Handler World Reply
  unfolding walk_loop finish_walk
  walk_names m src = do
    guard (all_valid m.names) einval
    walked ← walk_loop src.node true src.node [] m.names
    finish_walk m src walked.0 walked.1
    give (reply (shared (rwalk (record { qids = walked.0 }))))

  unfoldable pub handle_walk : Twalk → Handler World Reply
  unfolding clone_fid walk_names
  handle_walk m = do
    src ← get_fid m.fid
    if length m.names == 0 then clone_fid m src else walk_names m src
