-- ===== src/Server/Session/Clunk.antt =====
-- When a clunk closes the node of its fid.
use ninep.Prelude.{
  Bool-cases, inl, inr, ◌-◌, ℕ, ◌+◌, ◌%◌, ◌^◌, ◌≡◌, refl, ◌∙◌, List, ◌∷◌, Bool, true, false, not,
  ◌&&◌, Option, none, some, ◌==◌, if◌then◌else◌, arith,
}
use ninep.Proto.Base.{Bytes}
use ninep.Proto.Walk.{Tclunk}
use ninep.Server.Fid.{finish_clunk, xattr_write}
use ninep.Server.FidTable.{get, clunk}
use ninep.Server.FidTable.Cases.{if_cases}
use ninep.Server.Inode.{Inodes, dec_ref}
use ninep.Server.Conn.{Backend, Conn, Call, Reply, Handler, give, ◌>>=◌, ◌>>◌, proceed, change}
use ninep.Server.Conn.Run.{
  Fid, call, dec_ref_node, dec_at, finish_clunked, release_if_due, release_now, release_file_handle,
  release_by, close_orphan_node, close_by, is_state,
}
use ninep.Server.Conn.Bindings.{bindings, holders, is_inode}
use ninep.Server.Conn.Sound.{Owing}
use ninep.Server.Conn.Sound.Steps.{Owing-delete, Counted-paid, dec_ref-refs}
use ninep.Server.Conn.Keeps.{
  Keeps, Keeps-give, Keeps-guard, Keeps-need, Keeps-bind, Keeps-then, Keeps-call,
}
use ninep.Server.Handlers.Clunk.{
  take_fid, clunked, clunk_state, commit_xattr, commit_simple, remove_xattr_of, xattr_node_of,
  handle_clunk,
}
use ninep.Server.Handlers.References.Clunk.{Calm-clunk_state}
use ninep.Server.Handlers.Dispatch.{Request}
use ninep.Server.Session.{serve}
use ninep.Server.Session.References.{IsFresh, serve-Counted}

module _ (b : Backend) where
  open b use {World, inode}

  closed_of : Conn World → List ℕ
  closed_of c = c.closed

  quiet_call : {A : Type 0} (f : Call World A) → Keeps closed_of (call b f)
  unfolding closed_of
  quiet_call f = Keeps-call b closed_of (λ c w. refl) f

  quiet_remove :
      (remove : Option (Bytes → Call World (Unit {0}))) (name : Bytes)
      → Keeps closed_of (remove_xattr_of b remove name)
  unfolding remove_xattr_of
  quiet_remove none name = Keeps-give _ _
  quiet_remove (some remove) name = Keeps-bind _ _ (quiet_call _) (λ u. Keeps-give _ _)

  quiet_commit : (writer : Option ℕ) (fs : Fid) → Keeps closed_of (commit_xattr b writer fs)
  unfolding commit_xattr commit_simple
  quiet_commit (some writer) fs = Keeps-bind _ _ (quiet_call _) (λ u. Keeps-give _ _)
  quiet_commit none fs =
      if_cases {A = Handler World Reply} (Keeps closed_of) (fs.xattr_size == 0)
        (λ e. quiet_remove (b.remove_xattr (xattr_node_of b fs)) fs.xattr_name)
        (λ e. Keeps-then _ (Keeps-guard _ _ _) (
          Keeps-bind _ _ (Keeps-need _ _ _)
            (λ set. Keeps-bind _ _ (quiet_call _) (λ u. Keeps-give _ _))))

  closed-release : (h : Option ℕ) (c : Conn World) → (release_file_handle b h c).closed ≡ c.closed
  unfolding release_file_handle release_by
  closed-release none c = refl
  closed-release (some h) c =
      elim (b.release_handle h) as (λ f. (release_by f h c).closed ≡ c.closed) [
        | none ↦ refl
        | some f ↦ refl
      ]

  closed-finish :
      (fs : Fid) (last : Bool) (c : Conn World) (f : World → World)
      → fs.io_refs ≡ 0
      → b.close fs.node ≡ some f
      → (finish_clunked b fs last c).closed ≡ (if last then fs.node ∷ c.closed else c.closed)
  unfolding finish_clunked finish_clunk release_if_due release_now close_orphan_node close_by
  closed-finish fs true c f idle e = rw (idle, e, closed-release fs.handle c) refl
  closed-finish fs false c f idle e = rw idle (closed-release fs.handle c)

  closed-state :
      (fs : Fid) (last : Bool) (c : Conn World) (f : World → World)
      → fs.io_refs ≡ 0
      → b.close fs.node ≡ some f
      → (clunk_state b fs last c).1.closed
        ≡ (if not (is_state fs.state xattr_write) && last then fs.node ∷ c.closed else c.closed)
  unfolding clunk_state change give proceed ◌>>◌ ◌>>=◌ closed_of
  closed-state fs last c f idle e = elim (Bool-cases (is_state fs.state xattr_write)) [
    | inl t ↦ rw t ((quiet_commit fs.xattr_writer fs).keeps c)
    | inr t ↦ rw t (closed-finish fs last c f idle e)
  ]

  dec_ref-last : (t : Inodes) (i : ℕ) → (dec_ref t i).0 ≡ ((dec_ref t i).1.refs i == 0)
  unfolding dec_ref
  dec_ref-last t i =
      if_cases {A = Bool × Inodes} (λ r. r.0 ≡ ((t.refs i + (2 ^ 32 - 1)) % 2 ^ 32 == 0))
        (not ((t.refs i + (2 ^ 32 - 1)) % 2 ^ 32 == 0)) (λ e. ground arith) (λ e. ground arith)
      ∙ rw (dec_ref-refs t i i) (ground arith)

  dec_at-last :
      (o : Option ℕ) (t : Inodes) (i : ℕ)
      → o ≡ some i
      → (dec_at o t).0 ≡ ((dec_at o t).1.refs i == 0)
  unfolding dec_at
  dec_at-last o t i e = rw e (dec_ref-last t i)

  last-count :
      (fs : Fid) (i : ℕ) (c : Conn World)
      → Owing inode (is_inode (inode fs.node)) c
      → inode fs.node ≡ some i
      → (dec_at (inode fs.node) c.inodes).0 ≡ (holders inode (bindings c.fids) i % 2 ^ 32 == 0)
  last-count fs i c t e =
      dec_at-last (inode fs.node) c.inodes i e
      ∙ rw ((Counted-paid b c fs.node t).count i) (ground arith)

  closed-taken :
      (fs : Fid) (i : ℕ) (c : Conn World) (f : World → World)
      → Owing inode (is_inode (inode fs.node)) c
      → fs.io_refs ≡ 0
      → inode fs.node ≡ some i
      → b.close fs.node ≡ some f
      → (let d = ((dec_ref_node b fs.node >>= clunk_state b fs) c).1 in
          d.closed ≡ (
            if not (is_state fs.state xattr_write)
              && (holders inode (bindings d.fids) i % 2 ^ 32 == 0)
            then fs.node ∷ c.closed
            else c.closed))
  unfolding dec_ref_node ◌>>=◌ proceed
  closed-taken fs i c f t idle e g =
      let last = (dec_at (inode fs.node) c.inodes).0 in
      let d : Conn World = record c { inodes = (dec_at (inode fs.node) c.inodes).1 } in
      let p = (Calm-clunk_state b fs last {o = none}).calmly d tt in
      rw (p.fids, ← last-count fs i c t e) (closed-state fs last d f idle g)

-- A connection starts with no fids, on inodes that nothing refers to, and serves any requests. Then a
-- Tclunk comes for a fid on which no read or write runs, bound to a node that embeds the inode `i` and
-- can be closed. The node is closed, once, if no other fid is bound to a node of that inode (modulo the
-- 32 bits of the count) and the fid was not writing an extended attribute; nothing else is closed.
pub clunk_closes_last :
    (b : Backend) (rs : List Request) (c : Conn b.World) (m : Tclunk) (fs : Fid) (i : ℕ)
    (f : b.World → b.World)
    → IsFresh c
    → get (serve b rs c).fids m.fid ≡ some fs
    → fs.io_refs ≡ 0
    → b.inode fs.node ≡ some i
    → b.close fs.node ≡ some f
    → (handle_clunk b m (serve b rs c)).1.closed ≡ (
        if not (is_state fs.state xattr_write)
          && (holders b.inode (bindings (handle_clunk b m (serve b rs c)).1.fids) i % 2 ^ 32 == 0)
        then fs.node ∷ (serve b rs c).closed
        else (serve b rs c).closed)
unfolding handle_clunk take_fid clunked clunk ◌>>=◌ proceed
clunk_closes_last b rs c m fs i f h e idle j g = rw e (
    closed-taken b fs i _ f (Owing-delete b (serve b rs c) m.fid fs e (serve-Counted b rs c h)) idle
      j g)
