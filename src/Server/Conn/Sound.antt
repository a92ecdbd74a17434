-- ===== src/Server/Conn/Sound.antt =====
-- Handlers that keep the count of references on each inode at the number of fids bound to its nodes,
-- and leave both alone where they fail: one rule for each way to build them.
pub mod Steps
use ninep.Prelude.{
  ℕ, ◌+◌, ◌%◌, ◌^◌, ◌≡◌, refl, ◌∙◌, sym, Bool, true, false, Option, none, some, Option-cases, inl,
  inr, if◌then◌else◌, ◌∷◌, arith,
}
use ninep.Server.Fid.{FidState}
use ninep.Server.FidTable.{FidTable, FidError, get, add, write}
use ninep.Server.FidTable.Cases.{if_cases, add_cases}
use ninep.Server.Inode.{Inodes, inc_ref, dec_ref, prune_from, set_at}
use ninep.Server.Conn.{
  Backend, Conn, Outcome, gives, fails, Handler, give, fail, ◌>>=◌, ◌>>◌, proceed, need, ask,
  change,
}
use ninep.Server.Errno.{ebadf}
use ninep.Server.Conn.Run.{
  Fid, inc_at, dec_at, errno_of_add, added, add_fid, get_fid, inc_ref_node, dec_ref_node,
}
use ninep.Server.Conn.Bindings.{bindings, holders, is_inode, node_at-get}
use ninep.Server.Conn.Calm.{Same, same, same_trans, Bound, Bound-same, Calm, >>=-eq}

abbrev pub nothing : ℕ → ℕ
nothing i = 0

module _ {World : Type 0} (inode : ℕ → Option ℕ) where
  -- The references on each inode are the fids that hold it, `owed` more of them aside; the count has
  -- 32 bits.
  pub record Owing (owed : ℕ → ℕ) (c : Conn World) : Type 0 where
    pub count : (i : ℕ) → c.inodes.refs i ≡ (holders inode (bindings c.fids) i + owed i) % 2 ^ 32

  abbrev pub Counted : Conn World → Type 0
  Counted = Owing nothing

  pub Owing-same : {owed : ℕ → ℕ} {c d : Conn World} → Same c d → Owing owed c → Owing owed d
  Owing-same s t = record { count = λ i. s.refs i ∙ rw s.fids (t.count i) }

  -- A step that started at `c`.
  pub data Settled {A : Type 0} (c : Conn World) : Outcome A × Conn World → Type 0 where
    kept : (a : A) (d : Conn World) → Counted d → Settled c (gives a, d)
    undone : (e : ℕ) (d : Conn World) → Same c d → Settled c (fails e, d)

  pub record Sound {A : Type 0} (o : Option (ℕ × ℕ)) (h : Handler World A) : Type 0 where
    pub settles : (c : Conn World) → Bound o c → Counted c → Settled c (h c)

  -- A step that does not fail, and leaves the fids and the references alone.
  pub record Firm {A : Type 0} (h : Handler World A) : Type 0 where
    pub firmly : (c : Conn World) → (a : A) × (d : Conn World) × (h c ≡ (gives a, d)) × Same c d

  Settled-after :
      {A : Type 0} {c d : Conn World} {r : Outcome A × Conn World}
      → Same c d
      → Settled d r
      → Settled c r
  Settled-after s (kept a e t) = kept a e t
  Settled-after s (undone n e t) = undone n e (same_trans s t)

  Settled-proceed :
      {A B : Type 0} {c : Conn World} (r : Outcome A × Conn World) (f : A → Handler World B)
      → Same c r.1
      → ((a : A) → Settled r.1 (f a r.1))
      → Settled c (proceed r f)
  unfolding proceed
  Settled-proceed (gives a, d) f s t = Settled-after s (t a)
  Settled-proceed (fails e, d) f s t = undone e d s

  pub kept_proceed :
      {A B : Type 0} {c : Conn World} {r : Outcome A × Conn World} (f : A → Handler World B)
      → Settled c r
      → ((a : A) → Firm (f a))
      → Settled c (proceed r f)
  unfolding proceed
  kept_proceed f (kept a d t) firm =
      let (b, e, p, s) = (firm a).firmly d in rw p (kept b e (Owing-same s t))
  kept_proceed f (undone e d s) firm = undone e d s

  pub calm-Settled :
      {A : Type 0} {c : Conn World} (r : Outcome A × Conn World)
      → Same c r.1
      → Counted c
      → Settled c r
  calm-Settled (gives a, d) s t = kept a d (Owing-same s t)
  calm-Settled (fails e, d) s t = undone e d s

  module _ {o : Option (ℕ × ℕ)} where
    pub Sound-Calm : {A : Type 0} {h : Handler World A} → Calm o h → Sound o h
    Sound-Calm {h = h} s = record { settles = λ c p t. calm-Settled (h c) (s.calmly c p) t }

    pub Sound-bind :
        {A B : Type 0} {h : Handler World A} (f : A → Handler World B)
        → Calm o h
        → ((a : A) → Sound o (f a))
        → Sound o (h >>= f)
    Sound-bind {h = h} f s t = record {
      settles = λ c p k. rw (>>=-eq h f c) (
          Settled-proceed (h c) f (s.calmly c p) (λ a.
            (t a).settles (h c).1 (Bound-same o (s.calmly c p) p) (Owing-same (s.calmly c p) k)));
    }

    pub Sound-then :
        {B : Type 0} {h : Handler World (Unit {0})} {k : Handler World B}
        → Calm o h
        → Sound o k
        → Sound o (h >> k)
    unfolding ◌>>◌
    Sound-then s t = Sound-bind _ s (λ u. t)

    pub Sound-Firm :
        {A B : Type 0} {h : Handler World A} (f : A → Handler World B)
        → Sound o h
        → ((a : A) → Firm (f a))
        → Sound o (h >>= f)
    Sound-Firm {h = h} f s t = record {
      settles = λ c p k. rw (>>=-eq h f c) (kept_proceed f (s.settles c p k) t);
    }

    pub Sound-Firm_then :
        {B : Type 0} {h : Handler World (Unit {0})} {k : Handler World B}
        → Sound o h
        → Firm k
        → Sound o (h >> k)
    unfolding ◌>>◌
    Sound-Firm_then s t = Sound-Firm _ s (λ u. t)

    pub Sound-get :
        {A : Type 0} (fid : ℕ) (k : Fid → Handler World A)
        → ((fs : Fid) → Sound (some (fid, fs.node)) (k fs))
        → Sound o (get_fid fid >>= k)
    unfolding get_fid need ◌>>=◌ proceed
    Sound-get fid k t = record {
      settles = λ c p s. elim (Option-cases (get c.fids fid)) [
        | inl e ↦ rw e (undone ebadf c (same c))
        | inr (fs, e) ↦ rw e ((t fs).settles c (node_at-get c.fids fid fs e) s)
      ];
    }

    pub Sound-if :
        {A : Type 0} (t : Bool) {h k : Handler World A}
        → Sound o h
        → Sound o k
        → Sound o (if t then h else k)
    Sound-if true s r = s
    Sound-if false s r = r

  pub Firm-give : {A : Type 0} (a : A) → Firm (give a)
  unfolding give
  Firm-give a = record { firmly = λ c. (a, c, refl, same c) }

  pub Firm-ask : {A : Type 0} (f : Conn World → A) → Firm (ask f)
  unfolding ask
  Firm-ask f = record { firmly = λ c. (f c, c, refl, same c) }

  pub Firm-change :
      (f : Conn World → Conn World) → ((c : Conn World) → Same c (f c)) → Firm (change f)
  unfolding change
  Firm-change f s = record { firmly = λ c. (tt, f c, refl, s c) }

  pub Firm-bind :
      {A B : Type 0} {h : Handler World A} (f : A → Handler World B)
      → Firm h
      → ((a : A) → Firm (f a))
      → Firm (h >>= f)
  unfolding proceed
  Firm-bind {h = h} f s t = record {
    firmly = λ c.
        let (a, d, p, q) = s.firmly c in
        let (b, e, p', q') = (t a).firmly d in
        (b, e, rw (>>=-eq h f c, p, p') refl, same_trans q q');
  }

  pub Firm-then :
      {B : Type 0} {h : Handler World (Unit {0})} {k : Handler World B}
      → Firm h
      → Firm k
      → Firm (h >> k)
  unfolding ◌>>◌
  Firm-then s t = Firm-bind _ s (λ u. t)
