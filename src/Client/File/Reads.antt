-- ===== src/Client/File/Reads.antt =====
-- ReadAtCtx of client/file.go: a read in chunks is one read.
use ninep.Prelude.{
  ℕ, zero, suc, ◌+◌, ◌-◌, ◌^◌, ◌<◌, ◌≤◌, ◌≡◌, ◌⊎◌, refl, sym, ap, ◌∙◌, List, [], ◌∷◌, ◌++◌, false,
  Option, none, some, ◌==◌, inl, inr, Bool-cases, length, take, drop, length-append, length-drop,
  arith,
}
use mathlib.Core.Path.{subst}
use ninep.Proto.Base.{Bytes}
use ninep.Client.File.{
  Connection, File, Read, add_int64, success, failure, conn_error, eof, chunk_len, read_chunk,
  read_chunks, read_at_ctx, is_negative, max_chunk,
}
use ninep.Client.File.Store.{Store}
use ninep.Client.File.Chunks.{take-split}
use ninep.Client.File.Writes.{max_chunk_positive}

-- How a read of `size` bytes at `offset` ends, of a file with the contents `bs`.
pub data ReadEnds (c : Connection) (bs : Bytes) (offset size : ℕ) : Read c → Type 0 where
  filled :
      (p : Bytes) (v : c.World)
      → length p ≡ size
      → p ≡ take size (drop offset bs)
      → ReadEnds c bs offset size (p, success, v)
  ended :
      (p : Bytes) (v : c.World)
      → length p < size
      → p ≡ drop offset bs
      → ReadEnds c bs offset size (p, failure eof, v)
  broken :
      (k : ℕ) (p : Bytes) (v : c.World)
      → k < size
      → p ≡ take k (drop offset bs)
      → ReadEnds c bs offset size (p, failure conn_error, v)

answers :
    {W : Type 0} (r : Option Bytes × W)
    → ((v : W) × (r ≡ (none, v)))
      ⊎ (((v : W) × (r ≡ (some [], v)))
          ⊎ ((b : ℕ) × (bs : Bytes) × (v : W) × (r ≡ (some (b ∷ bs), v))))
answers (none, v) = inl (v, refl)
answers (some [], v) = inr (inl (v, refl))
answers (some (b ∷ bs), v) = inr (inr (b, bs, v, refl))

drop_nil {ℓ} : {A : Type ℓ} (n : ℕ) → drop {A = A} n [] ≡ []
drop_nil zero = refl
drop_nil (suc n) = refl

pub take_all {ℓ} : {A : Type ℓ} (n : ℕ) (xs : List A) → length xs ≤ n → take n xs ≡ xs
take_all zero [] h = refl
take_all zero (x ∷ xs) h = absurd (omega arith)
take_all (suc n) [] h = refl
take_all (suc n) (x ∷ xs) h = ap (λ t. x ∷ t) (take_all n xs (omega arith))

drop-drop {ℓ} : {A : Type ℓ} (n k : ℕ) (xs : List A) → drop n (drop k xs) ≡ drop (k + n) xs
drop-drop n zero xs = let e : n ≡ 0 + n = omega arith in ap (λ i. drop i xs) e
drop-drop n (suc k) [] = drop_nil n ∙ sym (drop_nil (suc k + n))
drop-drop n (suc k) (x ∷ xs) =
    let e : suc (k + n) ≡ suc k + n = omega arith in drop-drop n k xs ∙ ap (λ i. drop i (x ∷ xs)) e

-- What has been read, followed by what comes next, is what stands there.
module _ (all : Bytes) (off : ℕ) (p bs : Bytes) where
  joined :
      p ≡ take (length p) (drop off all)
      → bs ≡ take (length bs) (drop (off + length p) all)
      → p ++ bs ≡ take (length (p ++ bs)) (drop off all)
  joined hp hb =
      ap (λ x. x ++ bs) hp
      ∙ ap (λ y. take (length p) (drop off all) ++ y)
          (hb ∙ ap (take (length bs)) (sym (drop-drop (length p) off all)))
      ∙ take-split (length p) (length bs) (drop off all)
      ∙ ap (λ i. take i (drop off all)) (sym (length-append p bs))

-- The count of a Tread is between one and what is left.
chunk_len_lem :
    (left m : ℕ)
    → 0 < m
    → m < 2 ^ 32
    → (0 < chunk_len (suc left) m)
      × (chunk_len (suc left) m < 2 ^ 32)
      × (chunk_len (suc left) m ≤ suc left)
unfolding chunk_len
chunk_len_lem left m hm small = ground arith

-- The loop, with `p` read so far.
read_chunks_lem :
    (c : Connection) (fid : ℕ) (s : Store c fid) (m fuel left off : ℕ) (p all : Bytes) (w : c.World)
    → 0 < m
    → m < 2 ^ 32
    → left ≤ fuel
    → off + length p + left < 2 ^ 64
    → s.contents w ≡ all
    → p ≡ take (length p) (drop off all)
    → ReadEnds c all off (length p + left) (read_chunks c fid m fuel left off p w)
unfolding read_chunks read_chunk
read_chunks_lem c fid s m fuel zero off p all w hm small hf ho same here =
    let e : length p ≡ length p + 0 = omega arith in
    filled p w e (here ∙ ap (λ i. take i (drop off all)) e)
read_chunks_lem c fid s m zero (suc left) off p all w hm small hf ho same here =
    absurd (omega arith)
read_chunks_lem c fid s m (suc fuel) (suc left) off p all w hm small hf ho same here =
    elim (answers (c.rread fid (add_int64 off (length p)) (chunk_len (suc left) m) w)) [
      | inl (v, e) ↦ rw e (broken (length p) p v (omega arith) here)
      | inr (inl (v, e)) ↦ rw e (ended p v (omega arith) (here ∙ nothing_left v e))
      | inr (inr (b, bs, v, e)) ↦
          let got = s.read _ _ _ _ _ bounds.1 e in
          let n = length-append p (b ∷ bs) in
          let count = bounds.2 in
          let few = got.0 in
          let sizes : length (p ++ (b ∷ bs)) + (suc left - length (b ∷ bs)) ≡ length p + suc left =
            omega arith in
          rw e (
            subst
              (λ size.
                ReadEnds c all off size
                  (read_chunks c fid m fuel (suc left - length (b ∷ bs)) off (p ++ (b ∷ bs)) v))
              sizes
              (read_chunks_lem c fid s m fuel (suc left - length (b ∷ bs)) off (p ++ (b ∷ bs)) all v
                hm small (omega arith) (omega arith) (got.2 ∙ same)
                (joined all off p (b ∷ bs) here
                  (got.1 ∙ ap (λ x. take (length (b ∷ bs)) x) there))))
    ]
  where
    bounds :
        (0 < chunk_len (suc left) m)
        × (chunk_len (suc left) m < 2 ^ 32)
        × (chunk_len (suc left) m ≤ suc left)
    bounds = chunk_len_lem left m hm small

    wrap : add_int64 off (length p) ≡ off + length p
    wrap = omega arith

    there : drop (add_int64 off (length p)) (s.contents w) ≡ drop (off + length p) all
    there = ap (λ i. drop i (s.contents w)) wrap ∙ ap (drop (off + length p)) same

    nothing_left :
        (v : c.World)
        → c.rread fid (add_int64 off (length p)) (chunk_len (suc left) m) w ≡ (some [], v)
        → take (length p) (drop off all) ≡ drop off all
    nothing_left v e =
        let past = s.at_end _ _ _ _ bounds.0 bounds.1 e in
        let size = ap length same in
        take_all (length p) (drop off all) (omega (arith, length-drop off all, wrap))

pub max_chunk_small : (msize iounit : ℕ) → max_chunk msize iounit < 2 ^ 32
unfolding max_chunk
max_chunk_small msize iounit = ground arith

-- On an open File, with an msize above the 24 bytes of overhead and an offset and a length that are an
-- int64, ReadAt in chunks fills the buffer with what stands at the offset, or ends at the end of the file
-- with all that is left of it, or breaks off with a part of it.
pub read_at_lem :
    (c : Connection) (f : File) (s : Store c f.fid) (size off : ℕ) (w : c.World)
    → 24 < c.msize
    → c.msize < 2 ^ 32
    → f.closed ≡ false
    → off < 2 ^ 63
    → size < 2 ^ 63
    → ReadEnds c (s.contents w) off size (read_at_ctx c f size off w)
unfolding read_at_ctx is_negative
read_at_lem c f s size off w large small live near short = elim (Bool-cases (size == 0)) [
  | inl empty ↦
      let none_asked : 0 ≡ size = ground arith in
      rw (live, empty)
        (filled [] w none_asked (ap (λ i. take i (drop off (s.contents w))) none_asked))
  | inr some_asked ↦
      let positive : is_negative off ≡ false = ground arith in
      let all_left : 0 + size ≡ size = omega arith in
      rw (live, some_asked, positive)
        (subst
          (λ n.
            ReadEnds c (s.contents w) off n
              (read_chunks c f.fid (max_chunk c.msize f.iounit) size size off [] w))
          all_left
          (read_chunks_lem c f.fid s (max_chunk c.msize f.iounit) size size off [] (s.contents w) w
            (max_chunk_positive c.msize f.iounit large small) (max_chunk_small c.msize f.iounit)
            (omega arith) (omega arith) refl refl))
]
