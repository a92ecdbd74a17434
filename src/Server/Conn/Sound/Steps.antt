-- ===== src/Server/Conn/Sound/Steps.antt =====
-- The steps that bind a fid to a node, or free it, with the references that they move.
use ninep.Prelude.{
  ℕ, ◌+◌, ◌-◌, ◌%◌, ◌^◌, ◌≡◌, refl, ◌∙◌, Bool, not, ◌==◌, Option, none, some, if◌then◌else◌, ◌∷◌,
  arith,
}
use ninep.Server.Errno.{ebadf, emfile}
use ninep.Server.FidTable.{get, write, delete}
use ninep.Server.FidTable.Cases.{if_cases, add_cases}
use ninep.Server.Inode.{Inodes, inc_ref, dec_ref, prune_from, set_at}
use ninep.Server.Conn.{Backend, Conn, Handler, ◌>>=◌, ◌>>◌, proceed}
use ninep.Server.Conn.Run.{Fid, inc_at, dec_at, added, add_fid, inc_ref_node}
use ninep.Server.Conn.Bindings.{bindings, holders, is_inode, holders-write, holders-delete}
use ninep.Server.Conn.Calm.{same}
use ninep.Server.Conn.Sound.{Owing, Counted, Settled, kept, undone, Sound, Firm, kept_proceed}

pub inc_at-count :
    (o : Option ℕ) (t : Inodes) (i n : ℕ)
    → t.refs i ≡ n % 2 ^ 32
    → (inc_at o t).refs i ≡ (n + is_inode o i) % 2 ^ 32
unfolding inc_at inc_ref is_inode
inc_at-count none t i n e = ground arith
inc_at-count (some j) t i n e = ground arith

prune_from-refs : (p : Option ℕ) (t : Inodes) (j i : ℕ) → (prune_from p t j).refs i ≡ t.refs i
unfolding prune_from
prune_from-refs none t j i = refl
prune_from-refs (some p) t j i = refl

pub dec_ref-refs :
    (t : Inodes) (j i : ℕ)
    → (dec_ref t j).1.refs i ≡ (if i == j then (t.refs i + (2 ^ 32 - 1)) % 2 ^ 32 else t.refs i)
unfolding dec_ref
dec_ref-refs t j i =
    let left = (t.refs j + (2 ^ 32 - 1)) % 2 ^ 32 in
    let s : Inodes = record t { refs = set_at t.refs j left } in
    if_cases {A = Bool × Inodes}
      (λ r. r.1.refs i ≡ (if i == j then (t.refs i + (2 ^ 32 - 1)) % 2 ^ 32 else t.refs i))
      (not (left == 0)) (λ e. ground arith)
      (λ e.
        if_cases {A = Inodes}
          (λ r. r.refs i ≡ (if i == j then (t.refs i + (2 ^ 32 - 1)) % 2 ^ 32 else t.refs i))
          (t.prunable j) (λ p. prune_from-refs (t.parent j) s j i ∙ ground arith)
          (λ p. ground arith))

pub dec_at-count :
    (o : Option ℕ) (t : Inodes) (i n : ℕ)
    → t.refs i ≡ (n + is_inode o i) % 2 ^ 32
    → (dec_at o t).1.refs i ≡ n % 2 ^ 32
unfolding dec_at is_inode
dec_at-count none t i n e = ground arith
dec_at-count (some j) t i n e = rw (dec_ref-refs t j i) (ground arith)

module _ (b : Backend) where
  -- Binding a free fid number, and counting the reference.
  pub Counted-add :
      (c : Conn b.World) (fid : ℕ) (fs : Fid)
      → Counted b.inode c
      → Counted b.inode
          (record c { fids = (fid, fs) ∷ c.fids; inodes = inc_at (b.inode fs.node) c.inodes })
  unfolding bindings holders
  Counted-add c fid fs t = record {
    count = λ i.
        inc_at-count (b.inode fs.node) c.inodes i (holders b.inode (bindings c.fids) i)
          (t.count i ∙ ground arith)
        ∙ ground arith;
  }

  pub Sound-add :
      {A : Type 0} {o : Option (ℕ × ℕ)} (fid : ℕ) (fs : Fid) {k : Handler b.World A}
      → Firm b.inode k
      → Sound b.inode o (add_fid fid fs >> (inc_ref_node b fs.node >> k))
  unfolding add_fid added inc_ref_node ◌>>◌ ◌>>=◌ proceed
  Sound-add {A} fid fs {k} firm = record {
    settles = λ c p t.
        add_cases c.fids fid
          (λ r. Settled b.inode c (proceed (added r c) (λ u. (inc_ref_node b fs.node >> k)))) fs
          c.max_fids (λ h l. undone emfile _ (same c)) (λ old e. undone ebadf _ (same c))
          (λ h e. kept_proceed b.inode (λ u. k) (kept tt _ (Counted-add c fid fs t)) (λ u. firm));
  }

  -- The fid goes from one node to another, and so does the reference.
  pub Counted-write :
      (c : Conn b.World) (fid : ℕ) (old new : Fid)
      → get c.fids fid ≡ some old
      → Counted b.inode c
      → Counted b.inode (record c {
        fids = write fid new c.fids;
        inodes = (dec_at (b.inode old.node) (inc_at (b.inode new.node) c.inodes)).1;
      })
  Counted-write c fid old new e t = record {
    count = λ i.
        dec_at-count (b.inode old.node) (inc_at (b.inode new.node) c.inodes) i
          (holders b.inode (bindings (write fid new c.fids)) i + 0)
          (inc_at-count (b.inode new.node) c.inodes i (holders b.inode (bindings c.fids) i)
              (t.count i ∙ ground arith)
            ∙ ground (arith, holders-write b.inode i c.fids fid old new e));
  }

  -- A fid taken out of the table still has its reference.
  pub Owing-delete :
      (c : Conn b.World) (fid : ℕ) (fs : Fid)
      → get c.fids fid ≡ some fs
      → Counted b.inode c
      → Owing b.inode (is_inode (b.inode fs.node)) (record c { fids = delete fid c.fids })
  Owing-delete c fid fs e t = record {
    count = λ i. t.count i ∙ ground (arith, holders-delete b.inode i c.fids fid fs e);
  }

  pub Counted-paid :
      (c : Conn b.World) (n : ℕ)
      → Owing b.inode (is_inode (b.inode n)) c
      → Counted b.inode (record c { inodes = (dec_at (b.inode n) c.inodes).1 })
  Counted-paid c n t = record {
    count = λ i.
        dec_at-count (b.inode n) c.inodes i (holders b.inode (bindings c.fids) i) (t.count i)
        ∙ ground arith;
  }
