-- ===== src/Server/Conn/Refuses.antt =====
-- Handlers that return an error message and change nothing: one rule for each way to build them.
use ninep.Prelude.{ℕ, ◌≡◌, refl, Bool, true, false, Option, none, some}
use ninep.Server.Errno.{ebadf}
use ninep.Server.FidTable.{get}
use ninep.Server.Conn.{Conn, fails, Handler, ◌>>=◌, ◌>>◌, proceed, guard, need}
use ninep.Server.Conn.Run.{Fid, get_fid}

abbrev pub Refuses : {World A : Type 0} → Handler World A → Type 0
Refuses {World} h = (c : Conn World) → (e : ℕ) × (h c ≡ (fails e, c))

module _ {World A : Type 0} where
  pub guard-false : (e : ℕ) (k : Handler World A) (t : Bool) → t ≡ false → Refuses (guard t e >> k)
  unfolding guard ◌>>◌ ◌>>=◌ proceed
  guard-false e k false h c = (e, refl)
  guard-false e k true h c = cc

  pub past_guard : (t : Bool) (e : ℕ) (k : Handler World A) → Refuses k → Refuses (guard t e >> k)
  unfolding guard ◌>>◌ ◌>>=◌ proceed
  past_guard true e k r c = r c
  past_guard false e k r c = (e, refl)

  pub past_need :
      {B : Type 0} (o : Option B) (e : ℕ) (f : B → Handler World A)
      → ((x : B) → Refuses (f x))
      → Refuses (need o e >>= f)
  unfolding need ◌>>=◌ proceed
  past_need (some x) e f r c = r x c
  past_need none e f r c = (e, refl)

  pub past_get :
      (fid : ℕ) (f : Fid → Handler World A)
      → ((fs : Fid) → Refuses (f fs))
      → Refuses (get_fid fid >>= f)
  unfolding get_fid ◌>>=◌
  past_get fid f r c = past_need (get c.fids fid) ebadf f r c

pub Refuses-bind :
    {World A B : Type 0} (h : Handler World A) (f : A → Handler World B)
    → Refuses h
    → Refuses (h >>= f)
unfolding ◌>>=◌ proceed
Refuses-bind h f r c = let (e, p) = r c in (e, rw p refl)
