-- ===== src/Server/Conn/Calm.antt =====
-- Handlers that leave alone which node each fid is bound to, and the references on the inodes: one
-- rule for each way to build them.
use ninep.Prelude.{ℕ, ◌≡◌, refl, ◌∙◌, Bool, true, false, Option, none, some, Option-cases, inl, inr}
use ninep.Server.Fid.{begin_io, end_io, finish_clunk}
use ninep.Server.FidTable.{get, write}
use ninep.Server.FidTable.Cases.{if_cases}
use ninep.Server.Conn.{
  Answer, returns, errors, Call, Backend, Conn, Outcome, gives, fails, Handler, give, fail, ◌>>=◌,
  ◌>>◌, proceed, guard, need, ask, change,
}
use ninep.Server.Conn.Run.{
  Fid, unreferenced, call, answered, get_fid, put_fid, release_by, close_by, release_file_handle,
  close_orphan_node, close_unbound_node, release_now, release_if_due, finish_clunked, ended_at,
  with_io,
}
use ninep.Server.Conn.Bindings.{bindings, node_at, node_at-get, bindings-write}

module _ {World : Type 0} where
  pub record Same (c d : Conn World) : Type 0 where
    pub fids : bindings d.fids ≡ bindings c.fids
    pub refs : (i : ℕ) → d.inodes.refs i ≡ c.inodes.refs i

  pub same : (c : Conn World) → Same c c
  same c = record { fids = refl; refs = λ i. refl }

  pub same_trans : {c d e : Conn World} → Same c d → Same d e → Same c e
  same_trans s t = record { fids = t.fids ∙ s.fids; refs = λ i. t.refs i ∙ s.refs i }

  -- What is known of one fid: nothing, or the node that it is bound to.
  abbrev pub Bound : Option (ℕ × ℕ) → Conn World → Type 0
  Bound none c = Unit {0}
  Bound (some (fid, n)) c = node_at (bindings c.fids) fid ≡ some n

  pub Bound-same : (o : Option (ℕ × ℕ)) {c d : Conn World} → Same c d → Bound o c → Bound o d
  Bound-same none s p = tt
  Bound-same (some (fid, n)) s p = rw s.fids p

  pub record Calm {A : Type 0} (o : Option (ℕ × ℕ)) (h : Handler World A) : Type 0 where
    pub calmly : (c : Conn World) → Bound o c → Same c (h c).1

  pub >>=-eq :
      {A B : Type 0} (h : Handler World A) (f : A → Handler World B) (c : Conn World)
      → (h >>= f) c ≡ proceed (h c) f
  unfolding ◌>>=◌
  >>=-eq h f c = refl

  calm_proceed :
      {A B : Type 0} (o : Option (ℕ × ℕ)) (c : Conn World) (f : A → Handler World B)
      (r : Outcome A × Conn World)
      → Bound o c
      → Same c r.1
      → ((a : A) → Calm o (f a))
      → Same c (proceed r f).1
  unfolding proceed
  calm_proceed o c f (gives a, d) p s t = same_trans s ((t a).calmly d (Bound-same o s p))
  calm_proceed o c f (fails e, d) p s t = s

module _ {World : Type 0} {o : Option (ℕ × ℕ)} where
  pub Calm-give : {A : Type 0} (a : A) → Calm {World = World} o (give a)
  unfolding give
  Calm-give a = record { calmly = λ c p. same c }

  pub Calm-fail : {A : Type 0} (e : ℕ) → Calm {World = World} {A = A} o (fail e)
  unfolding fail
  Calm-fail e = record { calmly = λ c p. same c }

  pub Calm-guard : (t : Bool) (e : ℕ) → Calm {World = World} o (guard t e)
  unfolding guard
  Calm-guard true e = record { calmly = λ c p. same c }
  Calm-guard false e = record { calmly = λ c p. same c }

  pub Calm-need : {A : Type 0} (a : Option A) (e : ℕ) → Calm {World = World} o (need a e)
  unfolding need
  Calm-need (some a) e = record { calmly = λ c p. same c }
  Calm-need none e = record { calmly = λ c p. same c }

  pub Calm-ask : {A : Type 0} (f : Conn World → A) → Calm o (ask f)
  unfolding ask
  Calm-ask f = record { calmly = λ c p. same c }

  pub Calm-change :
      (f : Conn World → Conn World) → ((c : Conn World) → Same c (f c)) → Calm o (change f)
  unfolding change
  Calm-change f s = record { calmly = λ c p. s c }

  pub Calm-bind :
      {A B : Type 0} {h : Handler World A} (f : A → Handler World B)
      → Calm o h
      → ((a : A) → Calm o (f a))
      → Calm o (h >>= f)
  Calm-bind {h = h} f s t = record {
    calmly = λ c p. rw (>>=-eq h f c) (calm_proceed o c f (h c) p (s.calmly c p) t);
  }

  pub Calm-then :
      {B : Type 0} {h : Handler World (Unit {0})} {k : Handler World B}
      → Calm o h
      → Calm o k
      → Calm o (h >> k)
  unfolding ◌>>◌
  Calm-then s t = Calm-bind _ s (λ u. t)

module _ {World : Type 0} where
  -- The state that `get` finds is bound to its node.
  pub Calm-get :
      {A : Type 0} {o : Option (ℕ × ℕ)} (fid : ℕ) (k : Fid → Handler World A)
      → ((fs : Fid) → Calm (some (fid, fs.node)) (k fs))
      → Calm o (get_fid fid >>= k)
  unfolding get_fid need ◌>>=◌ proceed
  Calm-get fid k t = record {
    calmly = λ c p. elim (Option-cases (get c.fids fid)) [
      | inl e ↦ rw e (same c)
      | inr (fs, e) ↦ rw e ((t fs).calmly c (node_at-get c.fids fid fs e))
    ];
  }

  pub Calm-put :
      (fid n : ℕ) (fs : Fid) → fs.node ≡ n → Calm {World = World} (some (fid, n)) (put_fid fid fs)
  unfolding put_fid
  Calm-put fid n fs e = record {
    calmly = λ c p. record { fids = bindings-write c.fids fid fs (rw e p); refs = λ i. refl };
  }

  same_release_by :
      (f : Option (World → World)) (h : ℕ) (c : Conn World) → Same c (release_by f h c)
  unfolding release_by
  same_release_by none h c = same c
  same_release_by (some f) h c = record { fids = refl; refs = λ i. refl }

  same_close_by : (f : Option (World → World)) (n : ℕ) (c : Conn World) → Same c (close_by f n c)
  unfolding close_by
  same_close_by none n c = same c
  same_close_by (some f) n c = record { fids = refl; refs = λ i. refl }

module _ (b : Backend) where
  same_answered :
      {A : Type 0} (r : Answer A × b.World) (c : Conn b.World) → Same c (answered b r c).1
  unfolding answered
  same_answered (returns a, w) c = record { fids = refl; refs = λ i. refl }
  same_answered (errors e, w) c = record { fids = refl; refs = λ i. refl }

  pub Calm-call : {A : Type 0} {o : Option (ℕ × ℕ)} (f : Call b.World A) → Calm o (call b f)
  unfolding call
  Calm-call f = record { calmly = λ c p. same_answered (f c.world) c }

  pub same_release : (h : Option ℕ) (c : Conn b.World) → Same c (release_file_handle b h c)
  unfolding release_file_handle
  same_release none c = same c
  same_release (some h) c = same_release_by (b.release_handle h) h c

  pub same_orphan : (n : ℕ) (c : Conn b.World) → Same c (close_orphan_node b n c)
  unfolding close_orphan_node
  same_orphan n c = same_close_by (b.close n) n c

  pub same_unbound : (n : ℕ) (c : Conn b.World) → Same c (close_unbound_node b n c)
  unfolding close_unbound_node
  same_unbound n c =
      if_cases (λ d. Same c d) (unreferenced (b.inode n) c.inodes) (λ e. same_orphan n c)
        (λ e. same c)

  pub same_release_now : (fs : Fid) (t : Bool) (c : Conn b.World) → Same c (release_now b fs t c)
  unfolding release_now
  same_release_now fs true c = same_trans (same_release fs.handle c) (same_orphan fs.node _)
  same_release_now fs false c = same_release fs.handle c

  pub same_if_due :
      (fs : Fid) (t : Option Bool) (c : Conn b.World) → Same c (release_if_due b fs t c)
  unfolding release_if_due
  same_if_due fs none c = same c
  same_if_due fs (some t) c = same_release_now fs t c

  pub same_finish :
      (fs : Fid) (last : Bool) (c : Conn b.World) → Same c (finish_clunked b fs last c)
  unfolding finish_clunked
  same_finish fs last c = same_if_due (finish_clunk fs last).0 (finish_clunk fs last).1 c

  same_ended_at :
      (fid : ℕ) (o : Option Fid) (c : Conn b.World)
      → get c.fids fid ≡ o
      → Same c (ended_at b fid o c)
  unfolding ended_at end_io
  same_ended_at fid none c e = same c
  same_ended_at fid (some fs) c e =
      same_trans {d = record c { fids = write fid (end_io fs).0 c.fids }}
        (record {
          fids = bindings-write c.fids fid (end_io fs).0 (node_at-get c.fids fid fs e);
          refs = λ i. refl;
        })
        (same_if_due (end_io fs).0 (end_io fs).1 _)

  calm_body :
      {A : Type 0} (fid : ℕ) (fs gs : Fid) (body : Handler b.World A) (c : Conn b.World)
      → gs.node ≡ fs.node
      → Calm (some (fid, fs.node)) body
      → Bound (some (fid, fs.node)) c
      → (let r = body (record c { fids = write fid gs c.fids }) in
          Same c (ended_at b fid (get r.1.fids fid) r.1))
  calm_body fid fs gs body c e t p =
      let w : Same c (record c { fids = write fid gs c.fids }) = record {
        fids = bindings-write c.fids fid gs (rw e p);
        refs = λ i. refl;
      } in
      let r = body (record c { fids = write fid gs c.fids }) in
      same_trans w (
        same_trans (t.calmly _ (Bound-same (some (fid, fs.node)) w p))
          (same_ended_at fid (get r.1.fids fid) r.1 refl))

  begin_io-node : (fs : Fid) → (begin_io fs).1.node ≡ fs.node
  unfolding begin_io
  begin_io-node fs =
      if_cases {A = Bool × Fid} (λ r. r.1.node ≡ fs.node) fs.closing (λ e. refl) (λ e. refl)

  pub Calm-io :
      {A : Type 0} (fid : ℕ) (fs : Fid) (body : Handler b.World A)
      → Calm (some (fid, fs.node)) body
      → Calm (some (fid, fs.node)) (with_io b fid fs body)
  unfolding with_io begin_io
  Calm-io {A} fid fs body t = record {
    calmly = λ c p.
        if_cases {A = Outcome A × Conn b.World} (λ r. Same c r.1) (begin_io fs).0
          (λ e. calm_body fid fs (begin_io fs).1 body c (begin_io-node fs) t p) (λ e. same c);
  }
