-- ===== src/Server/Session/References.antt =====
-- A connection that serves any requests, and the references that its fids hold on the inodes.
use ninep.Prelude.{ℕ, ◌+◌, ◌%◌, ◌^◌, ◌≡◌, refl, ◌∙◌, List, [], ◌∷◌, Bool, true, false, arith}
use ninep.Server.FidTable.{FidTable, states, clunk_all}
use ninep.Server.Conn.{Backend, Conn, fails}
use ninep.Server.Conn.Run.{Fid, dec_at}
use ninep.Server.Conn.Bindings.{bindings, holders, is_inode}
use ninep.Server.Conn.Calm.{same_release_now}
use ninep.Server.Conn.Sound.{Owing, Counted, Owing-same}
use ninep.Server.Conn.Sound.Steps.{dec_at-count}
use ninep.Server.Handlers.Dispatch.{Request, dispatch}
use ninep.Server.Handlers.Dispatch.References.{
  frees_fid, Sound-dispatch, Counted-dispatch, settled-undone,
}
use ninep.Server.Session.{give_up, cleanup, serve}

-- A connection that has no fids yet, on inodes that nothing refers to.
pub record IsFresh {World : Type 0} (c : Conn World) : Type 0 where
  pub fids : c.fids ≡ []
  pub refs : (i : ℕ) → c.inodes.refs i ≡ 0

module _ (b : Backend) where
  open b use {World, inode}

  fresh-Counted : (c : Conn World) → IsFresh c → Counted inode c
  unfolding bindings holders
  fresh-Counted c h = record { count = λ i. rw (h.fids) (h.refs i) }

  Counted-serve :
      (rs : List Request) (c : Conn World) → Counted inode c → Counted inode (serve b rs c)
  unfolding serve
  Counted-serve [] c t = t
  Counted-serve (r ∷ rs) c t = Counted-serve rs (dispatch b r c).1 (Counted-dispatch b r c t)

  pub serve-Counted :
      (rs : List Request) (c : Conn World) → IsFresh c → Counted inode (serve b rs c)
  serve-Counted rs c h = Counted-serve rs c (fresh-Counted c h)

  -- What the fids taken out of the table hold.
  held : List Fid → ℕ → ℕ
  held [] i = 0
  held (fs ∷ rest) i = is_inode (inode fs.node) i + held rest i

  held-states : (ft : FidTable ℕ ℕ) (i : ℕ) → held (states ft) i ≡ holders inode (bindings ft) i
  unfolding held states bindings holders
  held-states [] i = refl
  held-states ((f, fs) ∷ ft) i = ground (arith, held-states ft i)

  bindings-empty : (ft : FidTable ℕ ℕ) → bindings ft ≡ [] → ft ≡ []
  unfolding bindings
  bindings-empty [] e = refl
  bindings-empty (p ∷ ft) e = cc

  paid :
      (fs : Fid) (rest : List Fid) (c : Conn World)
      → Owing inode (held (fs ∷ rest)) c
      → Owing inode (held rest) (record c { inodes = (dec_at (inode fs.node) c.inodes).1 })
  unfolding held
  paid fs rest c t = record {
    count = λ i.
        dec_at-count (inode fs.node) c.inodes i (holders inode (bindings c.fids) i + held rest i)
          (t.count i ∙ ground arith);
  }

  given_up :
      (drained : Bool) (fss : List Fid) (c : Conn World)
      → bindings c.fids ≡ []
      → Owing inode (held fss) c
      → (bindings (give_up b drained fss c).fids ≡ [])
        × ((i : ℕ) → (give_up b drained fss c).inodes.refs i ≡ 0)
  unfolding give_up held holders
  given_up drained [] c e t = (e, λ i. t.count i ∙ rw e refl)
  given_up true (fs ∷ rest) c e t =
      let s =
        same_release_now b fs (dec_at (inode fs.node) c.inodes).0
          (record c { inodes = (dec_at (inode fs.node) c.inodes).1 }) in
      given_up true rest _ (s.fids ∙ e) (Owing-same inode s (paid fs rest c t))
  given_up false (fs ∷ rest) c e t = given_up false rest _ e (paid fs rest c t)

  emptied :
      (c : Conn World)
      → Counted inode c
      → Owing inode (held (states c.fids)) (record c { fids = [] })
  unfolding holders bindings
  emptied c t = record { count = λ i. t.count i ∙ ground (arith, held-states c.fids i) }

  pub cleanup-Counted :
      (drained : Bool) (c : Conn World)
      → Counted inode c
      → ((cleanup b drained c).fids ≡ []) × ((i : ℕ) → (cleanup b drained c).inodes.refs i ≡ 0)
  unfolding cleanup clunk_all bindings
  cleanup-Counted drained c t =
      let r = given_up drained (states c.fids) (record c { fids = [] }) refl (emptied c t) in
      (bindings-empty _ r.0, r.1)

-- A connection starts with no fids, on inodes that nothing refers to, and serves any requests, each
-- answered in any way. Then the count of references on each inode is the number of fids that are bound
-- to its nodes, modulo the 32 bits that the count has.
pub references_counted :
    (b : Backend) (rs : List Request) (c : Conn b.World)
    → IsFresh c
    → (i : ℕ)
    → (serve b rs c).inodes.refs i ≡ holders b.inode (bindings (serve b rs c).fids) i % 2 ^ 32
references_counted b rs c h i = (serve-Counted b rs c h).count i ∙ ground arith

-- A connection starts with no fids, on inodes that nothing refers to, serves any requests, and is then
-- cleaned up, its handlers drained or not. Then it has no fids, and no reference is left on any inode.
pub cleanup_leaves_nothing :
    (b : Backend) (drained : Bool) (rs : List Request) (c : Conn b.World)
    → IsFresh c
    → ((cleanup b drained (serve b rs c)).fids ≡ [])
      × ((i : ℕ) → (cleanup b drained (serve b rs c)).inodes.refs i ≡ 0)
cleanup_leaves_nothing b drained rs c h =
    cleanup-Counted b drained (serve b rs c) (serve-Counted b rs c h)

-- A connection starts with no fids, on inodes that nothing refers to, and serves any requests. If the
-- next request, which is neither a Tclunk nor a Tremove, is answered with an error, each fid is bound
-- to the node that it was bound to, no fid came or went, and no inode's count of references changed.
pub failed_request_binds_nothing :
    (b : Backend) (rs : List Request) (c : Conn b.World) (r : Request) (e : ℕ)
    → IsFresh c
    → frees_fid r ≡ false
    → (dispatch b r (serve b rs c)).0 ≡ fails e
    → (bindings (dispatch b r (serve b rs c)).1.fids ≡ bindings (serve b rs c).fids)
      × ((i : ℕ) → (dispatch b r (serve b rs c)).1.inodes.refs i ≡ (serve b rs c).inodes.refs i)
failed_request_binds_nothing b rs c r e h n f =
    let s =
      settled-undone ((Sound-dispatch b r n).settles (serve b rs c) tt (serve-Counted b rs c h))
        f in
    (s.fids, s.refs)
