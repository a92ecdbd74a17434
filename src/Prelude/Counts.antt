-- ===== src/Prelude/Counts.antt =====
-- How often a number stands in a list, and taking out its first occurrence.
use Prim.Native.Nat.{ℕ, ◌+◌, ◌<◌}
use mathlib.Core.Path.{◌≡◌}
use mathlib.Core.List.{List, [], ◌∷◌, ◌++◌}
use native.Mathlib.Omega.{arith}
use ninep.Prelude.Tests.{◌==◌, if◌then◌else◌}
use ninep.Prelude.Lists.{length}

abbrev pub one_if : ℕ → ℕ → ℕ
one_if v x = if v == x then 1 else 0

abbrev pub count : ℕ → List ℕ → ℕ
count v [] = 0
count v (x ∷ xs) = one_if v x + count v xs

unfoldable pub remove : ℕ → List ℕ → List ℕ
remove v [] = []
remove v (x ∷ xs) = let rest = remove v xs in if v == x then xs else x ∷ rest

pub count-append : (v : ℕ) (xs ys : List ℕ) → count v (xs ++ ys) ≡ count v xs + count v ys
count-append v [] ys = omega arith
count-append v (x ∷ xs) ys = omega (arith, count-append v xs ys)

-- Taking `f` out lowers the count of `f` alone, by one.
pub count-remove :
    (v f : ℕ) (xs : List ℕ) → 0 < count f xs → count v (remove f xs) + one_if v f ≡ count v xs
unfolding remove
count-remove v f [] h = absurd (omega arith)
count-remove v f (x ∷ xs) h = ground (arith, count-remove v f xs)

pub length-remove : (f : ℕ) (xs : List ℕ) → 0 < count f xs → length (remove f xs) + 1 ≡ length xs
unfolding remove
length-remove f [] h = absurd (omega arith)
length-remove f (x ∷ xs) h = ground (arith, length-remove f xs)
