-- ===== src/Server/Conn/Keeps.antt =====
-- Handlers that leave one part of the connection as it is, whatever they answer.
use ninep.Prelude.{ℕ, ◌≡◌, refl, ◌∙◌, Bool, true, false, Option, none, some}
use ninep.Server.Conn.{
  Answer, returns, errors, Call, Backend, Conn, Outcome, gives, fails, Handler, give, fail, ◌>>=◌,
  ◌>>◌, proceed, guard, need,
}
use ninep.Server.Conn.Run.{call, answered}
use ninep.Server.Conn.Calm.{>>=-eq}

module _ {World X : Type 0} (part : Conn World → X) where
  pub record Keeps {A : Type 0} (h : Handler World A) : Type 0 where
    pub keeps : (c : Conn World) → part (h c).1 ≡ part c

  pub Keeps-give : {A : Type 0} (a : A) → Keeps (give a)
  unfolding give
  Keeps-give a = record { keeps = λ c. refl }

  pub Keeps-fail : {A : Type 0} (e : ℕ) → Keeps {A = A} (fail e)
  unfolding fail
  Keeps-fail e = record { keeps = λ c. refl }

  pub Keeps-guard : (t : Bool) (e : ℕ) → Keeps (guard t e)
  unfolding guard
  Keeps-guard true e = record { keeps = λ c. refl }
  Keeps-guard false e = record { keeps = λ c. refl }

  pub Keeps-need : {A : Type 0} (a : Option A) (e : ℕ) → Keeps (need a e)
  unfolding need
  Keeps-need (some a) e = record { keeps = λ c. refl }
  Keeps-need none e = record { keeps = λ c. refl }

  Keeps-proceed :
      {A B : Type 0} (c : Conn World) (f : A → Handler World B) (r : Outcome A × Conn World)
      → part r.1 ≡ part c
      → ((a : A) → Keeps (f a))
      → part (proceed r f).1 ≡ part c
  unfolding proceed
  Keeps-proceed c f (gives a, d) e t = (t a).keeps d ∙ e
  Keeps-proceed c f (fails n, d) e t = e

  pub Keeps-bind :
      {A B : Type 0} {h : Handler World A} (f : A → Handler World B)
      → Keeps h
      → ((a : A) → Keeps (f a))
      → Keeps (h >>= f)
  Keeps-bind {h = h} f s t = record {
    keeps = λ c. rw (>>=-eq h f c) (Keeps-proceed c f (h c) (s.keeps c) t);
  }

  pub Keeps-then :
      {B : Type 0} {h : Handler World (Unit {0})} {k : Handler World B}
      → Keeps h
      → Keeps k
      → Keeps (h >> k)
  unfolding ◌>>◌
  Keeps-then s t = Keeps-bind _ s (λ u. t)

module _ (b : Backend) {X : Type 0} (part : Conn b.World → X)
    (apart : (c : Conn b.World) (w : b.World) → part (record c { world = w }) ≡ part c) where
  keeps_answered :
      {A : Type 0} (r : Answer A × b.World) (c : Conn b.World) → part (answered b r c).1 ≡ part c
  unfolding answered
  keeps_answered (returns a, w) c = apart c w
  keeps_answered (errors e, w) c = apart c w

  pub Keeps-call : {A : Type 0} (f : Call b.World A) → Keeps part (call b f)
  unfolding call
  Keeps-call f = record { keeps = λ c. keeps_answered (f c.world) c }
