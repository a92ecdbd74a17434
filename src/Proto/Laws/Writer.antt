-- ===== src/Proto/Laws/Writer.antt =====
-- Writers one after the other: the laws by which nested writers are flattened.
use ninep.Prelude.{◌≡◌, refl, ap, Bool, true, false, append_assoc, append-nil}
use ninep.Proto.Base.{Bytes, Error, Result, ok, err, ◌>>◌, done, check}

pub >>_assoc : (u v w : Result Bytes) → (u >> v >> w) ≡ (u >> (v >> w))
unfolding ◌>>◌
>>_assoc (ok x) (ok y) (ok z) = ap ok (append_assoc x y z)
>>_assoc (ok x) (ok y) (err e) = refl
>>_assoc (ok x) (err e) w = refl
>>_assoc (err e) v w = refl

pub >>-done : (w : Result Bytes) → (w >> done) ≡ w
unfolding ◌>>◌ done
>>-done (ok x) = ap ok (append-nil x)
>>-done (err e) = refl

pub done->> : (w : Result Bytes) → (done >> w) ≡ w
unfolding ◌>>◌ done
done->> (ok x) = refl
done->> (err e) = refl

pub check_passes : (b : Bool) (e : Error) (w : Result Bytes) → b ≡ true → (check b e >> w) ≡ w
unfolding check ◌>>◌
check_passes true e (ok x) h = refl
check_passes true e (err d) h = refl
check_passes false e w h = cc

pub ruleset writer_laws = (>>_assoc, done->>)
