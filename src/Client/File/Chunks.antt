-- ===== src/Client/File/Chunks.antt =====
-- The chunks that the loops of client/file.go cut off a buffer.
use ninep.Prelude.{
  ℕ, zero, suc, ◌+◌, ◌≤◌, ◌≡◌, refl, sym, ap, ◌∙◌, List, [], ◌∷◌, ◌++◌, ltb, if◌then◌else◌, inl,
  inr, Bool-cases, length, take, drop, length-take, arith,
}
use ninep.Proto.Base.{Bytes}
use ninep.Server.Handlers.Io.{min}

take_nil {ℓ} : {A : Type ℓ} (n : ℕ) → take {A = A} n [] ≡ []
take_nil zero = refl
take_nil (suc n) = refl

pub take-split {ℓ} :
    {A : Type ℓ} (n k : ℕ) (xs : List A) → take n xs ++ take k (drop n xs) ≡ take (n + k) xs
take-split zero k xs = let e : k ≡ 0 + k = omega arith in ap (λ i. take i xs) e
take-split (suc n) k [] = take_nil k ∙ sym (take_nil (suc n + k))
take-split (suc n) k (x ∷ xs) =
    let e : suc (n + k) ≡ suc n + k = omega arith in
    ap (λ t. x ∷ t) (take-split n k xs) ∙ ap (λ i. take i (x ∷ xs)) e

drop_nil {ℓ} : {A : Type ℓ} (n : ℕ) → drop {A = A} n [] ≡ []
drop_nil zero = refl
drop_nil (suc n) = refl

pub drop-drop {ℓ} : {A : Type ℓ} (n k : ℕ) (xs : List A) → drop (n + k) xs ≡ drop k (drop n xs)
drop-drop zero k xs = let e : 0 + k ≡ k = omega arith in ap (λ i. drop i xs) e
drop-drop (suc n) k [] = drop_nil (suc n + k) ∙ sym (drop_nil k)
drop-drop (suc n) k (x ∷ xs) =
    let e : suc n + k ≡ suc (n + k) = omega arith in ap (λ i. drop i (x ∷ xs)) e ∙ drop-drop n k xs

take-length {ℓ} : {A : Type ℓ} (xs : List A) → take (length xs) xs ≡ xs
take-length [] = refl
take-length (x ∷ xs) = ap (λ t. x ∷ t) (take-length xs)

take-take_fewer {ℓ} : {A : Type ℓ} (n k : ℕ) (xs : List A) → n ≤ k → take n (take k xs) ≡ take n xs
take-take_fewer zero k xs h = refl
take-take_fewer (suc n) zero xs h = absurd (omega arith)
take-take_fewer (suc n) (suc k) [] h = refl
take-take_fewer (suc n) (suc k) (x ∷ xs) h = ap (λ t. x ∷ t) (take-take_fewer n k xs (omega arith))

module _ (m : ℕ) (p : Bytes) where
  abbrev pub chunk : Bytes
  chunk = if ltb m (length p) then take m p else p

  pub length-chunk : length chunk ≡ min m (length p)
  length-chunk = elim (Bool-cases (ltb m (length p))) [
    | inl cut ↦ let n = length-take m p (ground arith) in rw cut (ground arith)
    | inr all ↦ rw all (ground arith)
  ]

  pub chunk_lem : chunk ≡ take (min m (length p)) p
  chunk_lem = elim (Bool-cases (ltb m (length p))) [
    | inl cut ↦ let e : min m (length p) ≡ m = ground arith in rw (cut, e) refl
    | inr all ↦
        let e : min m (length p) ≡ length p = ground arith in rw (all, e) (sym (take-length p))
  ]

  pub take-chunk : (n : ℕ) → n ≤ length chunk → take n chunk ≡ take n p
  take-chunk n h = elim (Bool-cases (ltb m (length p))) [
    | inl cut ↦ let k = length-chunk in rw cut (take-take_fewer n m p (ground arith))
    | inr all ↦ rw all refl
  ]
