-- ===== src/Client/File/Writes.antt =====
-- WriteAtCtx of client/file.go: a write in chunks is one write.
use ninep.Prelude.{
  ℕ, zero, suc, ◌+◌, ◌-◌, ◌^◌, ◌<◌, ◌⊎◌, ◌≤◌, ◌≡◌, refl, sym, ap, ◌∙◌, [], ◌∷◌, ◌++◌, true, false,
  Option, none, some, ltb, inl, inr, Bool-cases, length, take, drop, length-take, length-drop,
  take-append-drop, arith,
}
use mathlib.Core.Path.{subst}
use ninep.Proto.Base.{Bytes}
use ninep.Client.File.{
  Connection, File, Written, add_int64, success, failure, conn_error, short_write, twrite,
  checked_count, File, max_chunk, write_at_ctx, is_empty, is_negative, write_chunks, wrote_chunk,
}
use ninep.Server.Handlers.Io.{min}
use ninep.Client.File.Chunks.{take-split, drop-drop, chunk, length-chunk, chunk_lem, take-chunk}
use ninep.Client.File.Store.{Store, patch, patch-append}

-- How a write of `p` at `offset` ends, with `total` bytes written before it, and the contents then. A
-- write is broken by a Twrite, of the bytes that are next, that fails in a world `u`: the count and the
-- contents are known there. What the Twrite that failed did to the contents is not known.
pub data WriteEnds (c : Connection) {fid : ℕ} (s : Store c fid) (old : Bytes) (offset total : ℕ)
    (p : Bytes) : Written c → Type 0 where
  whole :
      (n : ℕ) (v : c.World)
      → n ≡ total + length p
      → s.contents v ≡ patch old offset p
      → WriteEnds c s old offset total p (n, success, v)
  part :
      (k n : ℕ) (v : c.World)
      → k < length p
      → n ≡ total + k
      → s.contents v ≡ patch old offset (take k p)
      → WriteEnds c s old offset total p (n, failure short_write, v)
  broken :
      (k n j : ℕ) (u v : c.World)
      → k < length p
      → n ≡ total + k
      → s.contents u ≡ patch old offset (take k p)
      → 0 < j
      → twrite c fid (offset + k) (take j (drop k p)) u ≡ (none, v)
      → WriteEnds c s old offset total p (n, failure conn_error, v)

module _ (old : Bytes) (offset n : ℕ) (p : Bytes) (h : n ≤ length p) where
  patch-continued :
      (rest : Bytes)
      → (patch (patch old offset (take n p)) (offset + n) rest
          ≡ patch old offset (take n p ++ rest))
  patch-continued rest =
      ap (λ l. patch (patch old offset (take n p)) (offset + l) rest) (sym (length-take n p h))
      ∙ patch-append old offset (take n p) rest

  -- What a write of the rest brings, after `n` bytes, is what a write of all brings.
  lift :
      (c : Connection) {fid : ℕ} (s : Store c fid) (total : ℕ) (r : Written c)
      → WriteEnds c s (patch old offset (take n p)) (offset + n) (total + n) (drop n p) r
      → WriteEnds c s old offset total p r
  lift c s total r (whole m v count same) =
      whole m v (omega (arith, length-drop n p))
        (same ∙ patch-continued (drop n p) ∙ ap (patch old offset) (take-append-drop n p))
  lift c s total r (part k m v few count same) =
      part (n + k) m v (omega (arith, length-drop n p)) (omega arith)
        (same ∙ patch-continued (take k (drop n p)) ∙ ap (patch old offset) (take-split n k p))
  lift c {fid} s total r (broken k m j u v few count same more sent) =
      let there : offset + (n + k) ≡ offset + n + k = omega arith in
      broken (n + k) m j u v (omega (arith, length-drop n p)) (omega arith)
        (same ∙ patch-continued (take k (drop n p)) ∙ ap (patch old offset) (take-split n k p)) more
        (ap (λ o. twrite c fid o (take j (drop (n + k) p)) u) there
          ∙ ap (λ xs. twrite c fid (offset + n + k) (take j xs) u) (drop-drop n k p)
          ∙ sent)

  lift_at :
      (c : Connection) {fid : ℕ} (s : Store c fid) (total : ℕ) (r : Written c) (now : Bytes)
      (next : ℕ)
      → now ≡ patch old offset (take n p)
      → next ≡ offset + n
      → WriteEnds c s now next (total + n) (drop n p) r
      → WriteEnds c s old offset total p r
  lift_at c s total r now next same there ends = lift c s total r (
      subst (λ o. WriteEnds c s (patch old offset (take n p)) o (total + n) (drop n p) r) there
        (subst (λ xs. WriteEnds c s xs next (total + n) (drop n p) r) same ends))

answers :
    {W : Type 0} (r : Option ℕ × W)
    → ((v : W) × (r ≡ (none, v))) ⊎ ((n : ℕ) × (v : W) × (r ≡ (some n, v)))
answers (none, v) = inl (v, refl)
answers (some n, v) = inr (n, v, refl)

counted :
    (c : Connection) (size : ℕ) (r : Option ℕ × c.World) (n : ℕ) (v : c.World)
    → checked_count c size r ≡ (some n, v)
    → (n ≤ size) × (r ≡ (some n, v))
unfolding checked_count
counted c size (none, u) n v h = ground arith
counted c size (some k, u) n v h = ground arith

-- What a Twrite of a chunk leaves.
twrite_lem :
    (c : Connection) (fid : ℕ) (s : Store c fid) (offset m : ℕ) (p : Bytes) (n : ℕ) (w v : c.World)
    → 0 < length (chunk m p)
    → twrite c fid offset (chunk m p) w ≡ (some n, v)
    → (n ≤ length (chunk m p)) × (s.contents v ≡ patch (s.contents w) offset (take n p))
unfolding twrite
twrite_lem c fid s offset m p n w v some_sent e =
    let r = counted c (length (chunk m p)) _ n v e in
    (
      r.0,
      s.written offset n (chunk m p) w v some_sent r.1 r.0
          ∙ ap (patch (s.contents w) offset) (take-chunk m p n r.0),
    )

module _ (c : Connection) (total size n : ℕ) (next : ℕ → c.World → Written c) (v : c.World) where
  stops_short :
      ltb n size ≡ true
      → wrote_chunk c total size next (some n, v) ≡ (total + n, failure short_write, v)
  unfolding wrote_chunk
  stops_short h = rw h refl

  pub goes_on : ltb n size ≡ false → wrote_chunk c total size next (some n, v) ≡ next n v
  unfolding wrote_chunk
  goes_on h = rw h refl

pub max_chunk_positive :
    (msize iounit : ℕ) → 24 < msize → msize < 2 ^ 32 → 0 < max_chunk msize iounit
unfolding max_chunk
max_chunk_positive msize iounit large small = ground arith

-- The loop, on fuel for each byte, and a chunk of a byte or more.
pub write_chunks_lem :
    (c : Connection) (fid : ℕ) (s : Store c fid) (m fuel : ℕ) (p : Bytes) (off total : ℕ)
    (w : c.World)
    → 0 < m
    → length p ≤ fuel
    → off + total + length p < 2 ^ 64
    → WriteEnds c s (s.contents w) (off + total) total p (write_chunks c fid m fuel p off total w)
unfolding write_chunks wrote_chunk patch
write_chunks_lem c fid s m fuel [] off total w hm hf ho = whole total w (omega arith) refl
write_chunks_lem c fid s m zero (b ∷ p) off total w hm hf ho = absurd (omega arith)
write_chunks_lem c fid s m (suc fuel) (b ∷ p) off total w hm hf ho =
    elim (answers (twrite c fid (add_int64 off total) (chunk m (b ∷ p)) w)) [
      | inl (v, e) ↦ rw e (
          broken 0 total (min m (length (b ∷ p))) w v (omega arith) (omega arith) refl
            (ground arith) (failed v e))
      | inr (n, v, e) ↦ elim (Bool-cases (ltb n (length (chunk m (b ∷ p))))) [
        | inl short ↦
            rw (e, short) (part n (total + n) v (few n (ground arith)) refl (left_by n v e))
        | inr full ↦
            rw (e, full)
              (lift_at (s.contents w) (off + total) n (b ∷ p) (ground (arith, size, taken n v e)) c
                s total _ (s.contents v) (off + (total + n)) (left_by n v e) (omega arith)
                (write_chunks_lem c fid s m fuel (drop n (b ∷ p)) off (total + n) v hm
                  (ground (arith, size, taken n v e, rest n))
                  (ground (arith, size, taken n v e, rest n))))
      ]
    ]
  where
    size : length (chunk m (b ∷ p)) ≡ min m (length (b ∷ p))
    size = length-chunk m (b ∷ p)

    failed :
        (v : c.World)
        → twrite c fid (add_int64 off total) (chunk m (b ∷ p)) w ≡ (none, v)
        → (twrite c fid (off + total + 0) (take (min m (length (b ∷ p))) (b ∷ p)) w ≡ (none, v))
    failed v e =
        let there : off + total + 0 ≡ add_int64 off total = omega arith in
        ap (λ o. twrite c fid o (take (min m (length (b ∷ p))) (b ∷ p)) w) there
        ∙ ap (λ xs. twrite c fid (add_int64 off total) xs w) (sym (chunk_lem m (b ∷ p)))
        ∙ e

    few : (n : ℕ) → n < length (chunk m (b ∷ p)) → n < length (b ∷ p)
    few n h = ground (arith, size)

    taken :
        (n : ℕ) (v : c.World)
        → twrite c fid (add_int64 off total) (chunk m (b ∷ p)) w ≡ (some n, v)
        → n ≤ length (chunk m (b ∷ p))
    taken n v e =
        (twrite_lem c fid s (add_int64 off total) m (b ∷ p) n w v (ground (arith, size)) e).0

    rest : (n : ℕ) → length (drop n (b ∷ p)) ≡ length (b ∷ p) - n
    rest n = length-drop n (b ∷ p)

    wrap : add_int64 off total ≡ off + total
    wrap = omega arith

    left_by :
        (n : ℕ) (v : c.World)
        → twrite c fid (add_int64 off total) (chunk m (b ∷ p)) w ≡ (some n, v)
        → s.contents v ≡ patch (s.contents w) (off + total) (take n (b ∷ p))
    left_by n v e =
        (twrite_lem c fid s (add_int64 off total) m (b ∷ p) n w v (ground (arith, size)) e).1
        ∙ ap (λ o. patch (s.contents w) o (take n (b ∷ p))) wrap

-- On an open File, with an msize above the 24 bytes of overhead and an offset and a length that are an
-- int64, WriteAt in chunks ends with all bytes written, or short or broken after a part of them, and its
-- count tells how long that part is. When all or short, the file is the old one patched with that part;
-- when broken, it was so when the Twrite of the bytes that follow this part was sent, which failed.
pub write_at_lem :
    (c : Connection) (f : File) (s : Store c f.fid) (p : Bytes) (off : ℕ) (w : c.World)
    → 24 < c.msize
    → c.msize < 2 ^ 32
    → f.closed ≡ false
    → off < 2 ^ 63
    → length p < 2 ^ 63
    → WriteEnds c s (s.contents w) off 0 p (write_at_ctx c f p off w)
unfolding write_at_ctx is_empty patch is_negative
write_at_lem c f s [] off w large small live near short = rw live (whole 0 w (omega arith) refl)
write_at_lem c f s (b ∷ p) off w large small live near short =
    let start : off + 0 ≡ off = omega arith in
    let positive : is_negative off ≡ false = ground arith in
    let ends =
      write_chunks_lem c f.fid s (max_chunk c.msize f.iounit) (length (b ∷ p)) (b ∷ p) off 0 w
        (max_chunk_positive c.msize f.iounit large small) (omega arith) (omega arith) in
    rw (live, positive)
      (subst
        (λ o.
          WriteEnds c s (s.contents w) o 0 (b ∷ p)
            (write_chunks c f.fid (max_chunk c.msize f.iounit) (length (b ∷ p)) (b ∷ p) off 0 w))
        start ends)
