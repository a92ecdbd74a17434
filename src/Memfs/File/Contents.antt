-- ===== src/Memfs/File/Contents.antt =====
-- What the loops of server/memfs/memfs.go over the contents of a file do to each byte.
use ninep.Prelude.{
  ℕ, zero, suc, ◌+◌, ◌-◌, ◌%◌, ◌<◌, ◌≤◌, ◌^◌, ◌≡◌, refl, sym, ap, ◌∙◌, List, [], ◌∷◌, true, false,
  ◌&&◌, none, some, ltb, leb, if◌then◌else◌, length, take, drop, length-take, Bool-cases, inl, inr,
  arith,
}
use ninep.Proto.Base.{Bytes}
use ninep.Server.Handlers.Io.{min}
use ninep.Memfs.File.{
  moved, MemFile, max_mem_file_size, slice, read_bytes, checked_size, extend, write_checked, write,
  resize, zeros, copy, copy_at,
}
use ninep.Memfs.File.Positions.{
  byte_at, byte_at-past, byte_at-take, byte_at-zeros, length-zeros, length-copy, byte_at-copy,
  byte_at-copy_after, length-copy_at, byte_at-copy_at_before, byte_at-copy_at,
  byte_at-copy_at_after,
}

-- `n` bytes from a position on.
unfoldable pub bytes_from : (ℕ → ℕ) → ℕ → ℕ → Bytes
bytes_from at i zero = []
bytes_from at i (suc n) = at i ∷ bytes_from at (i + 1) n

abbrev pub larger : ℕ → ℕ → ℕ
larger a b = if leb a b then b else a

drop_step : (bs : Bytes) (i : ℕ) → i < length bs → drop i bs ≡ byte_at bs i ∷ drop (i + 1) bs
drop_step [] i h = absurd (omega arith)
drop_step (b ∷ bs) zero h = refl
drop_step (b ∷ bs) (suc i) h =
    let e : suc (i + 1) ≡ suc i + 1 = omega arith in
    drop_step bs i (omega arith) ∙ ap (λ k. byte_at bs i ∷ drop k (b ∷ bs)) e

-- A segment of a list holds its bytes.
pub bytes_from-byte_at :
    (bs : Bytes) (i n : ℕ) → i + n ≤ length bs → take n (drop i bs) ≡ bytes_from (byte_at bs) i n
unfolding bytes_from
bytes_from-byte_at bs i zero h = refl
bytes_from-byte_at bs i (suc n) h =
    ap (take (suc n)) (drop_step bs i (omega arith))
    ∙ ap (λ rest. byte_at bs i ∷ rest) (bytes_from-byte_at bs (i + 1) n (omega arith))

take-take {ℓ} : {A : Type ℓ} (n k : ℕ) (xs : List A) → k ≤ n → take n (take k xs) ≡ take k xs
take-take zero zero xs h = refl
take-take zero (suc k) xs h = absurd (omega arith)
take-take (suc n) zero xs h = refl
take-take (suc n) (suc k) [] h = refl
take-take (suc n) (suc k) (x ∷ xs) h = ap (λ t. x ∷ t) (take-take n k xs (omega arith))

slice_within :
    (bs : Bytes) (from to : ℕ)
    → from ≤ to
    → to ≤ length bs
    → slice bs from to ≡ some (take (to - from) (drop from bs))
unfolding slice
slice_within bs from to h k = ground arith

-- A read gives the bytes from the offset on, as many as there are and are asked for.
pub read_lem :
    (bs : Bytes) (n offset : ℕ)
    → n < 2 ^ 63
    → length bs ≤ max_mem_file_size
    → read_bytes bs n offset ≡ some (take (min n (length bs - offset)) (drop offset bs))
unfolding read_bytes moved
read_lem bs n offset small held = elim (Bool-cases (leb (length bs) offset)) [
  | inl past ↦ past_end past
  | inr within ↦ inside within
]
  where
    past_end :
        leb (length bs) offset ≡ true
        → read_bytes bs n offset ≡ some (take (min n (length bs - offset)) (drop offset bs))
    past_end h =
        let none_left : min n (length bs - offset) ≡ 0 = ground arith in rw (h, none_left) refl

    inside :
        leb (length bs) offset ≡ false
        → read_bytes bs n offset ≡ some (take (min n (length bs - offset)) (drop offset bs))
    inside h =
        let k = min n (length bs - offset) in
        let stop : min ((offset + n) % 2 ^ 64) (length bs) ≡ offset + k = ground arith in
        let within = slice_within bs offset (offset + k) (omega arith) (ground arith) in
        let same : (offset + k) - offset ≡ k = omega arith in
        rw (h, stop, within, same) (ap some (take-take n k (drop offset bs) (ground arith)))

pub write_lem :
    (f : MemFile) (bs : Bytes) (offset : ℕ)
    → offset + length bs ≤ max_mem_file_size
    → (write f bs offset ≡ (
      some (length bs),
      record f { contents = copy_at (extend f.contents (offset + length bs)) offset bs },
    ))
unfolding write checked_size write_checked
write_lem f bs offset h = ground arith

pub write_refused :
    (f : MemFile) (bs : Bytes) (offset : ℕ)
    → max_mem_file_size < offset + length bs
    → write f bs offset ≡ (none, f)
unfolding write checked_size write_checked
write_refused f bs offset h = ground arith

pub length-extend : (bs : Bytes) (n : ℕ) → length (extend bs n) ≡ larger (length bs) n
unfolding extend
length-extend bs n = elim (Bool-cases (ltb (length bs) n)) [
  | inl longer ↦ rw (longer, length-copy (zeros n) bs, length-zeros n) (ground arith)
  | inr enough ↦ rw enough (ground arith)
]

-- What is added reads as zeros, as the positions after the end did.
pub byte_at-extend : (bs : Bytes) (n i : ℕ) → byte_at (extend bs n) i ≡ byte_at bs i
unfolding extend
byte_at-extend bs n i = elim (Bool-cases (ltb (length bs) n)) [
  | inl longer ↦ rw longer (filled (ground arith))
  | inr enough ↦ rw enough refl
]
  where
    filled : length bs < n → byte_at (copy (zeros n) bs) i ≡ byte_at bs i
    filled h = elim (Bool-cases (ltb i (length bs))) [
      | inl low ↦
          let n_zeros = length-zeros n in byte_at-copy (zeros n) bs i (ground arith) (omega arith)
      | inr high ↦
          byte_at-copy_after (zeros n) bs i (ground arith)
          ∙ byte_at-zeros n i
          ∙ sym (byte_at-past bs i (ground arith))
    ]

module _ (old bs : Bytes) (offset : ℕ) where
  abbrev stop : ℕ
  stop = offset + length bs

  abbrev grown : Bytes
  grown = extend old stop

  fits : stop ≤ length grown
  fits = let size = length-extend old stop in ground arith

  within : offset ≤ length grown
  within = omega (arith, fits)

  pub length-written : length (copy_at grown offset bs) ≡ larger (length old) stop
  length-written = length-copy_at grown offset bs within ∙ length-extend old stop

  -- Each byte after a write.
  pub byte_at-written :
      (i : ℕ)
      → (byte_at (copy_at grown offset bs) i
          ≡ (if leb offset i && ltb i stop then byte_at bs (i - offset) else byte_at old i))
  byte_at-written i = elim (Bool-cases (leb offset i)) [
    | inr before ↦
        rw before (
          byte_at-copy_at_before grown offset bs i within (ground arith)
          ∙ byte_at-extend old stop i)
    | inl from ↦ elim (Bool-cases (ltb i stop)) [
      | inl to ↦
          rw (from, to)
            (byte_at-copy_at grown offset bs i within (ground arith) (ground arith) fits)
      | inr after ↦
          rw (from, after)
            (byte_at-copy_at_after grown offset bs i within (ground arith)
              ∙ byte_at-extend old stop i)
    ]
  ]

-- A resized file, byte for byte.
pub byte_at-resize :
    (bs : Bytes) (n i : ℕ) → byte_at (resize bs n) i ≡ (if ltb i n then byte_at bs i else 0)
unfolding resize
byte_at-resize bs n i = elim (Bool-cases (ltb n (length bs))) [
  | inl shorter ↦ rw shorter (cut (ground arith))
  | inr longer ↦ rw longer (byte_at-extend bs n i ∙ kept (ground arith))
]
  where
    cut : n < length bs → byte_at (take n bs) i ≡ (if ltb i n then byte_at bs i else 0)
    cut h = elim (Bool-cases (ltb i n)) [
      | inl low ↦ rw low (byte_at-take n bs i (ground arith))
      | inr high ↦
          let size = length-take n bs (omega arith) in
          rw high (byte_at-past (take n bs) i (ground arith))
    ]

    kept : length bs ≤ n → byte_at bs i ≡ (if ltb i n then byte_at bs i else 0)
    kept h = elim (Bool-cases (ltb i n)) [
      | inl low ↦ rw low refl
      | inr high ↦ rw high (byte_at-past bs i (ground arith))
    ]

pub length-resize : (bs : Bytes) (n : ℕ) → length (resize bs n) ≡ n
unfolding resize
length-resize bs n = elim (Bool-cases (ltb n (length bs))) [
  | inl shorter ↦ rw shorter (length-take n bs (ground arith))
  | inr longer ↦ let grown = length-extend bs n in rw longer (ground arith)
]
