-- ===== src/Proto/Laws/Bytes.antt =====
-- Little-endian integers: reading back what was written, and writing back what was read.
use ninep.Prelude.{
  ℕ, zero, suc, ◌+◌, ◌*◌, ◌/◌, ◌%◌, ◌^◌, ◌<◌, ◌≡◌, refl, [], ◌∷◌, length, All, arith,
}
use native.Mathlib.Nat.{pow-suc}
use ninep.Proto.Base.{Bytes, IsU8, put_le, from_le}

pub length-put_le : (k v : ℕ) → length (put_le k v) ≡ k
unfolding put_le
length-put_le zero v = refl
length-put_le (suc k) v = omega (arith, length-put_le k (v / 256))

pub put_le-IsU8 : (k v : ℕ) → All IsU8 (put_le k v)
unfolding put_le
put_le-IsU8 zero v = tt
put_le-IsU8 (suc k) v = (omega arith, put_le-IsU8 k (v / 256))

div_bound : (m v : ℕ) → v < m * 256 → v / 256 < m
div_bound m v h = omega arith

-- `v` comes back if it has at most `k` bytes.
pub from_le-put_le : (k v : ℕ) → v < 256 ^ k → from_le (put_le k v) ≡ v
unfolding put_le from_le
from_le-put_le zero v h = omega arith
from_le-put_le (suc k) v h =
    let h' : v / 256 < 256 ^ k = div_bound (256 ^ k) v (rw pow-suc at h) in
    omega (arith, from_le-put_le k (v / 256) h')

-- An integer of `k` bytes is below 256 ^ k.
pub from_le-lt : (bs : Bytes) → All IsU8 bs → from_le bs < 256 ^ length bs
unfolding from_le
from_le-lt [] h = omega arith
from_le-lt (b ∷ bs) (hb, hbs) = rw pow-suc (omega (arith, from_le-lt bs hbs))

-- The bytes come back from the integer that they spell.
pub put_le-from_le : (bs : Bytes) → All IsU8 bs → put_le (length bs) (from_le bs) ≡ bs
unfolding put_le from_le
put_le-from_le [] h = refl
put_le-from_le (b ∷ bs) (hb, hbs) =
    let low : (b + 256 * from_le bs) % 256 ≡ b = omega arith in
    let high : (b + 256 * from_le bs) / 256 ≡ from_le bs = omega arith in
    rw (low, high, put_le-from_le bs hbs)
