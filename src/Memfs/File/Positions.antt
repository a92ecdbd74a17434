-- ===== src/Memfs/File/Positions.antt =====
-- The bytes of the contents of server/memfs/memfs.go, one position at a time.
use ninep.Prelude.{
  ℕ, zero, suc, ◌+◌, ◌-◌, ◌<◌, ◌≤◌, ◌≡◌, refl, ap, ◌∙◌, [], ◌∷◌, ◌++◌, length, take, drop,
  length-append, length-take, length-drop, arith,
}
use ninep.Proto.Base.{Bytes}
use ninep.Memfs.File.{zeros, copy, copy_at}

-- The byte at a position, 0 after the end.
abbrev pub byte_at : Bytes → ℕ → ℕ
byte_at [] i = 0
byte_at (b ∷ bs) zero = b
byte_at (b ∷ bs) (suc i) = byte_at bs i

pub byte_at-past : (bs : Bytes) (i : ℕ) → length bs ≤ i → byte_at bs i ≡ 0
byte_at-past [] i h = refl
byte_at-past (b ∷ bs) zero h = absurd (omega arith)
byte_at-past (b ∷ bs) (suc i) h = byte_at-past bs i (omega arith)

-- Two lists of one length with the same byte at each position are equal.
pub byte_at_extensional :
    (xs ys : Bytes) → length xs ≡ length ys → ((i : ℕ) → byte_at xs i ≡ byte_at ys i) → xs ≡ ys
byte_at_extensional [] [] h same = refl
byte_at_extensional [] (y ∷ ys) h same = absurd (omega arith)
byte_at_extensional (x ∷ xs) [] h same = absurd (omega arith)
byte_at_extensional (x ∷ xs) (y ∷ ys) h same =
    ap (λ b. b ∷ xs) (same zero)
    ∙ ap (λ bs. y ∷ bs) (byte_at_extensional xs ys (omega arith) (λ i. same (suc i)))

pub byte_at-append : (xs ys : Bytes) (i : ℕ) → i < length xs → byte_at (xs ++ ys) i ≡ byte_at xs i
byte_at-append [] ys i h = absurd (omega arith)
byte_at-append (x ∷ xs) ys zero h = refl
byte_at-append (x ∷ xs) ys (suc i) h = byte_at-append xs ys i (omega arith)

pub byte_at-append_after :
    (xs ys : Bytes) (i : ℕ) → length xs ≤ i → byte_at (xs ++ ys) i ≡ byte_at ys (i - length xs)
byte_at-append_after [] ys i h = let e : i ≡ i - 0 = omega arith in ap (byte_at ys) e
byte_at-append_after (x ∷ xs) ys zero h = absurd (omega arith)
byte_at-append_after (x ∷ xs) ys (suc i) h =
    let e : i - length xs ≡ suc i - suc (length xs) = omega arith in
    byte_at-append_after xs ys i (omega arith) ∙ ap (byte_at ys) e

pub byte_at-take : (n : ℕ) (xs : Bytes) (i : ℕ) → i < n → byte_at (take n xs) i ≡ byte_at xs i
byte_at-take zero xs i h = absurd (omega arith)
byte_at-take (suc n) [] i h = refl
byte_at-take (suc n) (x ∷ xs) zero h = refl
byte_at-take (suc n) (x ∷ xs) (suc i) h = byte_at-take n xs i (omega arith)

pub byte_at-drop : (n : ℕ) (xs : Bytes) (i : ℕ) → byte_at (drop n xs) i ≡ byte_at xs (n + i)
byte_at-drop zero xs i = let e : i ≡ 0 + i = omega arith in ap (byte_at xs) e
byte_at-drop (suc n) [] i = refl
byte_at-drop (suc n) (x ∷ xs) i =
    let e : suc (n + i) ≡ suc n + i = omega arith in byte_at-drop n xs i ∙ ap (byte_at (x ∷ xs)) e

pub byte_at-zeros : (n i : ℕ) → byte_at (zeros n) i ≡ 0
unfolding zeros
byte_at-zeros zero i = refl
byte_at-zeros (suc n) zero = refl
byte_at-zeros (suc n) (suc i) = byte_at-zeros n i

pub length-zeros : (n : ℕ) → length (zeros n) ≡ n
unfolding zeros
length-zeros zero = refl
length-zeros (suc n) = ap suc (length-zeros n)

pub length-copy : (dst src : Bytes) → length (copy dst src) ≡ length dst
unfolding copy
length-copy [] src = refl
length-copy (d ∷ dst) [] = refl
length-copy (d ∷ dst) (b ∷ src) = ap suc (length-copy dst src)

pub byte_at-copy :
    (dst src : Bytes) (i : ℕ)
    → i < length src
    → length src ≤ length dst
    → byte_at (copy dst src) i ≡ byte_at src i
unfolding copy
byte_at-copy dst [] i h fits = absurd (omega arith)
byte_at-copy [] (b ∷ src) i h fits = absurd (omega arith)
byte_at-copy (d ∷ dst) (b ∷ src) zero h fits = refl
byte_at-copy (d ∷ dst) (b ∷ src) (suc i) h fits = byte_at-copy dst src i (omega arith) (omega arith)

pub byte_at-copy_after :
    (dst src : Bytes) (i : ℕ) → length src ≤ i → byte_at (copy dst src) i ≡ byte_at dst i
unfolding copy
byte_at-copy_after [] src i h = refl
byte_at-copy_after (d ∷ dst) [] i h = refl
byte_at-copy_after (d ∷ dst) (b ∷ src) zero h = absurd (omega arith)
byte_at-copy_after (d ∷ dst) (b ∷ src) (suc i) h = byte_at-copy_after dst src i (omega arith)

pub length-copy_at :
    (bs : Bytes) (offset : ℕ) (src : Bytes)
    → offset ≤ length bs
    → length (copy_at bs offset src) ≡ length bs
unfolding copy_at
length-copy_at bs offset src h =
    length-append (take offset bs) (copy (drop offset bs) src)
    ∙ omega
        (arith, length-take offset bs h, length-drop offset bs, length-copy (drop offset bs) src)

module _ (bs : Bytes) (offset : ℕ) (src : Bytes) (i : ℕ) (within : offset ≤ length bs) where
  pub byte_at-copy_at_before : i < offset → byte_at (copy_at bs offset src) i ≡ byte_at bs i
  unfolding copy_at
  byte_at-copy_at_before h =
      let front = length-take offset bs within in
      byte_at-append (take offset bs) (copy (drop offset bs) src) i (omega arith)
      ∙ byte_at-take offset bs i h

  -- A position after the offset is looked up in the part that `copy` changed.
  after_offset :
      offset ≤ i
      → byte_at (copy_at bs offset src) i ≡ byte_at (copy (drop offset bs) src) (i - offset)
  unfolding copy_at
  after_offset h =
      let front = length-take offset bs within in
      byte_at-append_after (take offset bs) (copy (drop offset bs) src) i (omega arith)
      ∙ ap (λ n. byte_at (copy (drop offset bs) src) (i - n)) front

  pub byte_at-copy_at :
      offset ≤ i
      → i < offset + length src
      → offset + length src ≤ length bs
      → byte_at (copy_at bs offset src) i ≡ byte_at src (i - offset)
  byte_at-copy_at low high fits =
      let rest = length-drop offset bs in
      after_offset low ∙ byte_at-copy (drop offset bs) src (i - offset) (omega arith) (omega arith)

  pub byte_at-copy_at_after :
      offset + length src ≤ i → byte_at (copy_at bs offset src) i ≡ byte_at bs i
  byte_at-copy_at_after h =
      let there : offset + (i - offset) ≡ i = omega arith in
      after_offset (omega arith)
      ∙ byte_at-copy_after (drop offset bs) src (i - offset) (omega arith)
      ∙ byte_at-drop offset bs (i - offset)
      ∙ ap (byte_at bs) there
