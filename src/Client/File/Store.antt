-- ===== src/Client/File/Store.antt =====
-- What a File of client/file.go relies on: a connection behind which a server keeps the bytes of a
-- file.
use ninep.Prelude.{
  ℕ, ◌+◌, ◌-◌, ◌^◌, ◌<◌, ◌≤◌, ◌≡◌, sym, ap, ◌∙◌, [], ◌∷◌, ◌++◌, some, ◌&&◌, leb, ltb, if◌then◌else◌,
  inl, inr, Bool-cases, length, take, drop, length-append, length-take, length-drop, append-nil,
  arith,
}
use ninep.Proto.Base.{Bytes}
use ninep.Memfs.File.{zeros}
use ninep.Memfs.File.Contents.{larger}
use ninep.Memfs.File.Positions.{
  byte_at, byte_at-past, byte_at_extensional, byte_at-append, byte_at-append_after, byte_at-take,
  byte_at-drop, byte_at-zeros, length-zeros,
}
use ninep.Client.File.{Connection}

-- The contents after bytes are written at an offset: what stood before it, with zeros in a gap, the
-- bytes, and what stood after them. To write nothing changes nothing.
unfoldable pub patch : Bytes → ℕ → Bytes → Bytes
patch old offset [] = old
patch old offset (b ∷ bs) =
    take offset (old ++ zeros (offset - length old))
    ++ (b ∷ bs)
    ++ drop (offset + length (b ∷ bs)) old

-- The server behind a connection keeps the contents of the file of a fid. A write changes what it
-- reports to have written; a read gives some of the bytes from the offset on, and none only at the end.
pub record Store (c : Connection) (fid : ℕ) : Type 0 where
  pub contents : c.World → Bytes
  pub written :
      (offset n : ℕ) (bs : Bytes) (w v : c.World)
      → 0 < length bs
      → c.rwrite fid offset bs w ≡ (some n, v)
      → n ≤ length bs
      → contents v ≡ patch (contents w) offset (take n bs)
  pub read :
      (offset count : ℕ) (bs : Bytes) (w v : c.World)
      → count < 2 ^ 32
      → c.rread fid offset count w ≡ (some bs, v)
      → (length bs ≤ count)
        × (bs ≡ take (length bs) (drop offset (contents w)))
        × (contents v ≡ contents w)
  pub at_end :
      (offset count : ℕ) (w v : c.World)
      → 0 < count
      → count < 2 ^ 32
      → c.rread fid offset count w ≡ (some [], v)
      → length (contents w) ≤ offset

module _ (old : Bytes) (offset : ℕ) where
  abbrev front : Bytes
  front = take offset (old ++ zeros (offset - length old))

  length-front : length front ≡ offset
  length-front =
      let n = length-append old (zeros (offset - length old)) in
      let z = length-zeros (offset - length old) in
      length-take offset (old ++ zeros (offset - length old)) (omega arith)

  byte_at-front : (i : ℕ) → i < offset → byte_at front i ≡ byte_at old i
  byte_at-front i h =
      byte_at-take offset (old ++ zeros (offset - length old)) i h
      ∙ elim (Bool-cases (ltb i (length old))) [
        | inl low ↦ byte_at-append old (zeros (offset - length old)) i (ground arith)
        | inr high ↦
            byte_at-append_after old (zeros (offset - length old)) i (ground arith)
            ∙ byte_at-zeros (offset - length old) (i - length old)
            ∙ sym (byte_at-past old i (ground arith))
      ]

  pub length-patch :
      (bs : Bytes)
      → 0 < length bs
      → length (patch old offset bs) ≡ larger (length old) (offset + length bs)
  unfolding patch
  length-patch [] h = absurd (omega arith)
  length-patch (b ∷ bs) h =
      let tail = drop (offset + length (b ∷ bs)) old in
      let n = length-append (front ++ (b ∷ bs)) tail in
      let k = length-append front (b ∷ bs) in
      let f = length-front in let d = length-drop (offset + length (b ∷ bs)) old in ground arith

  pub byte_at-patch :
      (bs : Bytes) (i : ℕ)
      → (byte_at (patch old offset bs) i ≡ (
          if leb offset i && ltb i (offset + length bs)
          then byte_at bs (i - offset)
          else byte_at old i))
  unfolding patch
  byte_at-patch [] i = ground arith
  byte_at-patch (b ∷ bs) i = elim (Bool-cases (leb offset i)) [
    | inr before ↦ rw before (
        byte_at-append (front ++ (b ∷ bs)) (drop stop old) i (ground (arith, f, k))
        ∙ byte_at-append front (b ∷ bs) i (ground (arith, f, k))
        ∙ byte_at-front i (ground (arith, f, k)))
    | inl from ↦ elim (Bool-cases (ltb i stop)) [
      | inl to ↦
          rw (from, to)
            (byte_at-append (front ++ (b ∷ bs)) (drop stop old) i (ground (arith, f, k))
              ∙ byte_at-append_after front (b ∷ bs) i (ground (arith, f, k))
              ∙ ap (λ n. byte_at (b ∷ bs) (i - n)) f)
      | inr after ↦
          rw (from, after)
            (byte_at-append_after (front ++ (b ∷ bs)) (drop stop old) i (ground (arith, f, k))
              ∙ byte_at-drop stop old (i - length (front ++ (b ∷ bs)))
              ∙ ap (byte_at old) (there (ground (arith, f, k))))
    ]
  ]
    where
      stop : ℕ
      stop = offset + length (b ∷ bs)

      f : length front ≡ offset
      f = length-front

      k : length (front ++ (b ∷ bs)) ≡ stop
      k = length-append front (b ∷ bs) ∙ omega (arith, f)

      there : stop ≤ i → stop + (i - length (front ++ (b ∷ bs))) ≡ i
      there h = omega (arith, k)

byte_at-join :
    (xs ys : Bytes) (i : ℕ)
    → (byte_at (xs ++ ys) i
        ≡ (if ltb i (length xs) then byte_at xs i else byte_at ys (i - length xs)))
byte_at-join xs ys i = elim (Bool-cases (ltb i (length xs))) [
  | inl low ↦ rw low (byte_at-append xs ys i (ground arith))
  | inr high ↦ rw high (byte_at-append_after xs ys i (ground arith))
]

module _ (old : Bytes) (offset : ℕ) (p q : Bytes) where
  length-patch_twice :
      0 < length p
      → 0 < length q
      → (length (patch (patch old offset p) (offset + length p) q)
          ≡ length (patch old offset (p ++ q)))
  length-patch_twice hp hq =
      let a = length-patch (patch old offset p) (offset + length p) q hq in
      let b = length-patch old offset p hp in
      let n = length-append p q in
      let d = length-patch old offset (p ++ q) (omega arith) in ground arith

  byte_at-patch_twice :
      (i : ℕ)
      → (byte_at (patch (patch old offset p) (offset + length p) q) i
          ≡ byte_at (patch old offset (p ++ q)) i)
  byte_at-patch_twice i =
      let n = length-append p q in
      let e : i - (offset + length p) ≡ i - offset - length p = omega arith in
      let at_e = ap (byte_at q) e in
      let j = byte_at-join p q (i - offset) in
      let second = byte_at-patch (patch old offset p) (offset + length p) q i in
      let first = byte_at-patch old offset p i in
      let both = byte_at-patch old offset (p ++ q) i in ground arith

-- Two writes, the second where the first one ended, are one write.
pub patch-append :
    (old : Bytes) (offset : ℕ) (xs ys : Bytes)
    → patch (patch old offset xs) (offset + length xs) ys ≡ patch old offset (xs ++ ys)
unfolding patch
patch-append old offset [] ys =
    let e : offset + 0 ≡ offset = omega arith in ap (λ o. patch old o ys) e
patch-append old offset (x ∷ xs) [] = ap (patch old offset) (sym (append-nil (x ∷ xs)))
patch-append old offset (x ∷ xs) (y ∷ ys) =
    byte_at_extensional _ _
      (length-patch_twice old offset (x ∷ xs) (y ∷ ys) (omega arith) (omega arith))
      (byte_at-patch_twice old offset (x ∷ xs) (y ∷ ys))
