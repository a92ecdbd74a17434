-- ===== src/Server/Handlers/References/Clunk.antt =====
-- handleClunk and handleRemove, which free a fid whether or not they succeed.
use ninep.Prelude.{ℕ, ◌≡◌, refl, Bool, Option, none, some, Option-cases, inl, inr}
use ninep.Proto.Base.{Bytes}
use ninep.Proto.Walk.{Tclunk, Tremove}
use ninep.Server.FidTable.{get, delete, clunk}
use ninep.Server.Inode.{remove_child}
use ninep.Server.Conn.{
  Call, Backend, Conn, Outcome, gives, fails, ◌>>=◌, ◌>>◌, give, fail, proceed, change,
}
use ninep.Server.Conn.Run.{Fid, dec_ref_node, dec_at}
use ninep.Server.Conn.Bindings.{is_inode, delete-absent}
use ninep.Server.Conn.Calm.{
  Same, Calm, Calm-give, Calm-guard, Calm-need, Calm-call, Calm-ask, Calm-change, Calm-bind,
  Calm-then, same_finish,
}
use ninep.Server.Conn.Sound.{Owing, Counted, Owing-same}
use ninep.Server.Conn.Sound.Steps.{Owing-delete, Counted-paid}
use ninep.Server.Handlers.References.Plain.{calm}
use ninep.Server.Handlers.Clunk.{
  clunked, take_fid, remove_xattr_of, commit_simple, commit_xattr, clunk_state, handle_clunk,
  unlink_from, remove_via_inode_tree, clunk_removed, remove_fid, handle_remove,
}

module _ (b : Backend) where
  open b use {World, inode}

  Calm-remove_xattr :
      (remove : Option (Bytes → Call World (Unit {0}))) (name : Bytes) {o : Option (ℕ × ℕ)}
      → Calm o (remove_xattr_of b remove name)
  unfolding remove_xattr_of
  Calm-remove_xattr none name = Calm-give _
  Calm-remove_xattr (some remove) name = Calm-bind _ (Calm-call b _) (λ u. Calm-give _)

  Calm-commit :
      (writer : Option ℕ) (fs : Fid) {o : Option (ℕ × ℕ)} → Calm o (commit_xattr b writer fs)
  unfolding commit_xattr commit_simple
  Calm-commit (some writer) fs = search calm depth 12
  Calm-commit none fs = search (calm, Calm-remove_xattr) depth 12

  pub Calm-clunk_state :
      (fs : Fid) (last : Bool) {o : Option (ℕ × ℕ)} → Calm o (clunk_state b fs last)
  unfolding clunk_state
  Calm-clunk_state fs last =
      search (calm, Calm-commit, Calm-change _ (same_finish b fs last)) depth 12

  Calm-unlink_from : (i p : ℕ) {o : Option (ℕ × ℕ)} → Calm o (unlink_from b i p)
  unfolding unlink_from remove_child
  Calm-unlink_from i p = Calm-bind _ (Calm-ask _) λ name. Calm-then (Calm-guard _ _) (
      Calm-bind _ (Calm-need _ _) λ unlink.
        Calm-bind _ (Calm-call b _)
          λ u. Calm-change _ λ c. record { fids = refl; refs = λ j. refl })

  pub Calm-remove_via : (node : ℕ) {o : Option (ℕ × ℕ)} → Calm o (remove_via_inode_tree b node)
  unfolding remove_via_inode_tree
  Calm-remove_via node = search (calm, Calm-unlink_from) depth 12

  -- The steps after the fid left the table, which give its reference back.
  Counted-clunked :
      (c : Conn World) (fs : Fid)
      → Owing inode (is_inode (inode fs.node)) c
      → Counted inode ((dec_ref_node b fs.node >>= clunk_state b fs) c).1
  unfolding dec_ref_node ◌>>=◌ proceed
  Counted-clunked c fs t =
      Owing-same inode
        ((Calm-clunk_state fs (dec_at (inode fs.node) c.inodes).0 {o = none}).calmly _ tt)
        (Counted-paid b c fs.node t)

  Counted-removed :
      (fs : Fid) (r : Outcome (Unit {0}) × Conn World)
      → Owing inode (is_inode (inode fs.node)) r.1
      → Counted inode (clunk_removed b fs r).1
  unfolding clunk_removed dec_ref_node change ◌>>=◌ ◌>>◌ proceed give fail
  Counted-removed fs (gives u, c) t =
      Owing-same inode (same_finish b fs (dec_at (inode fs.node) c.inodes).0 _)
        (Counted-paid b c fs.node t)
  Counted-removed fs (fails e, c) t =
      Owing-same inode (same_finish b fs (dec_at (inode fs.node) c.inodes).0 _)
        (Counted-paid b c fs.node t)

  same_absent :
      (c : Conn World) (fid : ℕ)
      → get c.fids fid ≡ none
      → Same c (record c { fids = delete fid c.fids })
  same_absent c fid e = record { fids = rw (delete-absent c.fids fid e) refl; refs = λ i. refl }

  pub Counted-clunk :
      (m : Tclunk) (c : Conn World) → Counted inode c → Counted inode (handle_clunk b m c).1
  unfolding handle_clunk take_fid clunked clunk ◌>>=◌ proceed
  Counted-clunk m c t = elim (Option-cases (get c.fids m.fid)) [
    | inl e ↦ rw e (Owing-same inode (same_absent c m.fid e) t)
    | inr (fs, e) ↦ rw e (Counted-clunked _ fs (Owing-delete b c m.fid fs e t))
  ]

  pub Counted-remove :
      (m : Tremove) (c : Conn World) → Counted inode c → Counted inode (handle_remove b m c).1
  unfolding handle_remove take_fid clunked clunk remove_fid ◌>>=◌ proceed
  Counted-remove m c t = elim (Option-cases (get c.fids m.fid)) [
    | inl e ↦ rw e (Owing-same inode (same_absent c m.fid e) t)
    | inr (fs, e) ↦ rw e (
        Counted-removed fs _ (
          Owing-same inode ((Calm-remove_via fs.node {o = none}).calmly _ tt)
            (Owing-delete b c m.fid fs e t)))
  ]
