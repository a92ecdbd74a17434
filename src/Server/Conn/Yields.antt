-- ===== src/Server/Conn/Yields.antt =====
-- What is known of the value that a handler gives, if it gives one.
use ninep.Prelude.{ℕ, ◌≡◌, refl, Bool, true, false, Bool-cases, inl, inr, if◌then◌else◌}
use ninep.Server.Errno.{ebadf}
use ninep.Server.Fid.{begin_io}
use ninep.Server.Conn.{
  Backend, Conn, Outcome, gives, fails, Handler, give, fail, ◌>>=◌, ◌>>◌, proceed, guard,
}
use ninep.Server.Conn.Run.{Fid, with_io}
use ninep.Server.Conn.Calm.{>>=-eq}

pub data Good {A : Type 0} (Q : A → Type 0) : Outcome A → Type 0 where
  good : (a : A) → Q a → Good Q (gives a)
  bad : (e : ℕ) → Good Q (fails e)

abbrev pub Any : {A : Type 0} → A → Type 0
Any a = Unit {0}

Good-Any : {A : Type 0} (o : Outcome A) → Good Any o
Good-Any (gives a) = good a tt
Good-Any (fails e) = bad e

module _ {World : Type 0} where
  pub record Yields {A : Type 0} (Q : A → Type 0) (h : Handler World A) : Type 0 where
    pub yields : (c : Conn World) → Good Q (h c).0

  pub Yields-Any : {A : Type 0} (h : Handler World A) → Yields Any h
  Yields-Any h = record { yields = λ c. Good-Any (h c).0 }

  pub Yields-give : {A : Type 0} (Q : A → Type 0) (a : A) → Q a → Yields Q (give a)
  unfolding give
  Yields-give Q a q = record { yields = λ c. good a q }

  pub Yields-fail : {A : Type 0} (Q : A → Type 0) (e : ℕ) → Yields Q (fail e)
  unfolding fail
  Yields-fail Q e = record { yields = λ c. bad e }

  pub Yields-guard : (t : Bool) (e : ℕ) → Yields (λ u. t ≡ true) (guard t e)
  unfolding guard
  Yields-guard true e = record { yields = λ c. good tt refl }
  Yields-guard false e = record { yields = λ c. bad e }

  Good-proceed :
      {A B : Type 0} {P : A → Type 0} (Q : B → Type 0) (f : A → Handler World B)
      (r : Outcome A × Conn World)
      → Good P r.0
      → ((a : A) → P a → Yields Q (f a))
      → Good Q (proceed r f).0
  unfolding proceed
  Good-proceed Q f (gives a, d) (good x p) t = (t a p).yields d
  Good-proceed Q f (fails e, d) (bad n) t = bad e

  pub Yields-bind :
      {A B : Type 0} {P : A → Type 0} (Q : B → Type 0) {h : Handler World A}
      (f : A → Handler World B)
      → Yields P h
      → ((a : A) → P a → Yields Q (f a))
      → Yields Q (h >>= f)
  Yields-bind Q {h = h} f s t = record {
    yields = λ c. rw (>>=-eq h f c) (Good-proceed Q f (h c) (s.yields c) t);
  }

  pub Yields-then :
      {B : Type 0} (Q : B → Type 0) (t : Bool) (e : ℕ) (k : Handler World B)
      → (t ≡ true → Yields Q k)
      → Yields Q (guard t e >> k)
  unfolding ◌>>◌
  Yields-then Q t e k s = Yields-bind Q _ (Yields-guard t e) (λ u. s)

  -- After a step of which nothing is known.
  pub Yields-after :
      {A B : Type 0} (Q : B → Type 0) (h : Handler World A) (f : A → Handler World B)
      → ((a : A) → Yields Q (f a))
      → Yields Q (h >>= f)
  Yields-after Q h f t = Yields-bind Q f (Yields-Any h) (λ a u. t a)

  pub Yields-if :
      {A : Type 0} (Q : A → Type 0) (t : Bool) {h k : Handler World A}
      → Yields Q h
      → Yields Q k
      → Yields Q (if t then h else k)
  Yields-if Q true s r = s
  Yields-if Q false s r = r

module _ (b : Backend) where
  pub Yields-io :
      {A : Type 0} (Q : A → Type 0) (fid : ℕ) (fs : Fid) {body : Handler b.World A}
      → Yields Q body
      → Yields Q (with_io b fid fs body)
  unfolding with_io
  Yields-io Q fid fs {body} s = record {
    yields = λ c. elim (Bool-cases (begin_io fs).0) [
      | inl e ↦ rw e (s.yields _)
      | inr e ↦ rw e (bad ebadf)
    ];
  }
