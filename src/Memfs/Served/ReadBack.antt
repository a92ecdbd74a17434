-- ===== src/Memfs/Served/ReadBack.antt =====
-- A client that writes to a MemFile and reads the bytes back.
use ninep.Prelude.{
  ℕ, zero, suc, ◌+◌, ◌-◌, ◌^◌, ◌<◌, ◌≤◌, ◌≡◌, refl, sym, ap, ◌∙◌, [], ◌∷◌, ◌++◌, Bool, true, false,
  Option, none, some, leb, ltb, ◌&&◌, ◌==◌, if◌then◌else◌, inl, inr, Bool-cases, length, take, drop,
  length-take, length-drop, arith,
}
use ninep.Proto.Base.{Bytes}
use ninep.Server.Handlers.Io.{min}
use ninep.Memfs.Served.{Held, served, file_store, some-none}
use ninep.Memfs.File.{max_mem_file_size, read}
use ninep.Memfs.File.Contents.{write_lem, read_lem}
use ninep.Memfs.File.Refines.{Holds}
use ninep.Client.File.{
  Connection, Written, add_int64, twrite, checked_count, write_chunks, wrote_chunk, read_chunks,
  read_chunk, chunk_len, success, unfinished, failure, Ending, Fault, File, Read, conn_error,
  write_at_ctx, read_at_ctx, max_chunk, is_empty, is_negative,
}
use ninep.Memfs.File.Positions.{
  byte_at, byte_at_extensional, byte_at-past, byte_at-take, byte_at-drop,
}
use ninep.Client.File.Store.{Store, patch, length-patch, byte_at-patch}
use ninep.Client.File.Reads.{ReadEnds, max_chunk_small, read_at_lem, filled, ended}
use ninep.Client.File.Writes.{
  WriteEnds, write_at_lem, max_chunk_positive, whole, part, broken, goes_on,
}
use ninep.Client.File.Chunks.{chunk, length-chunk}

-- A server that accepts every write below a limit.
unfoldable pub Accepts : (c : Connection) → ℕ → ℕ → Type 0
Accepts c fid limit =
    (offset : ℕ) (bs : Bytes) (w : c.World)
    → offset + length bs ≤ limit
    → (c.rwrite fid offset bs w).0 ≡ some (length bs)

-- A server that answers every read.
unfoldable pub Answers : (c : Connection) → ℕ → Type 0
Answers c fid =
    (offset count : ℕ) (w : c.World)
    → count < 2 ^ 32
    → (bs : Bytes) × ((c.rread fid offset count w).0 ≡ some bs)

twrite_accepted :
    (c : Connection) (fid limit offset : ℕ) (bs : Bytes) (w : c.World)
    → Accepts c fid limit
    → offset + length bs ≤ limit
    → (v : c.World) × (twrite c fid offset bs w ≡ (some (length bs), v))
unfolding twrite checked_count Accepts
twrite_accepted c fid limit offset bs w ok h =
    ((c.rwrite fid offset bs w).1, accepted _ (ok offset bs w h))
  where
    kept : (v : c.World) → checked_count c (length bs) (some (length bs), v) ≡ (some (length bs), v)
    kept v = let same : ltb (length bs) (length bs) ≡ false = ground arith in rw same refl

    accepted :
        (r : Option ℕ × c.World)
        → r.0 ≡ some (length bs)
        → checked_count c (length bs) r ≡ (some (length bs), r.1)
    accepted (o, v) e = ap (λ x. checked_count c (length bs) (x, v)) e ∙ kept v

accepted :
    (c : Connection) (total size : ℕ) (next : ℕ → c.World → Written c)
    → ((v : c.World) → (next size v).1 ≡ success)
    → (r : Option ℕ × c.World) → (v : c.World) × (r ≡ (some size, v))
    → (wrote_chunk c total size next r).1 ≡ success
accepted c total size next fine r (v, e) =
    let all : ltb size size ≡ false = ground arith in
    ap (λ x. (wrote_chunk c total size next x).1) e
    ∙ ap (λ x. x.1) (goes_on c total size size next v all)
    ∙ fine v

write_chunks_accepted :
    (c : Connection) (fid limit m fuel : ℕ) (p : Bytes) (off total : ℕ) (w : c.World)
    → Accepts c fid limit
    → 0 < m
    → length p ≤ fuel
    → off + total + length p ≤ limit
    → limit < 2 ^ 64
    → (write_chunks c fid m fuel p off total w).1 ≡ success
unfolding write_chunks
write_chunks_accepted c fid limit m fuel [] off total w ok hm hf ho hl = refl
write_chunks_accepted c fid limit m zero (b ∷ p) off total w ok hm hf ho hl = absurd (omega arith)
write_chunks_accepted c fid limit m (suc fuel) (b ∷ p) off total w ok hm hf ho hl =
    accepted c total _ (λ n v. write_chunks c fid m fuel (drop n (b ∷ p)) off (total + n) v)
      (λ v.
        write_chunks_accepted c fid limit m fuel (drop (length (chunk m (b ∷ p))) (b ∷ p)) off
          (total + length (chunk m (b ∷ p))) v ok hm (ground (arith, size, rest))
          (ground (arith, size, rest)) hl)
      _
      (twrite_accepted c fid limit (add_int64 off total) (chunk m (b ∷ p)) w ok
        (ground (arith, size)))
  where
    size : length (chunk m (b ∷ p)) ≡ min m (length (b ∷ p))
    size = length-chunk m (b ∷ p)

    rest :
        length (drop (length (chunk m (b ∷ p))) (b ∷ p)) ≡ length (b ∷ p) - length (chunk m (b ∷ p))
    rest = length-drop (length (chunk m (b ∷ p))) (b ∷ p)

chunk_len_small : (left m : ℕ) → m < 2 ^ 32 → chunk_len (suc left) m < 2 ^ 32
unfolding chunk_len
chunk_len_small left m small = ground arith

not_success : {x : Fault} → failure x ≡ success → ⊥
not_success e = ground arith

true-false : true ≡ false → ⊥
true-false e = ground arith

abbrev is_broken : Ending → Bool
is_broken success = false
is_broken unfinished = false
is_broken (failure conn_error) = true
is_broken (failure _) = false

answered :
    (c : Connection) (p : Bytes) (next : Bytes → c.World → Read c)
    → ((bs : Bytes) (v : c.World) → is_broken (next bs v).1 ≡ false)
    → (r : Option Bytes × c.World) → (bs : Bytes) × (r.0 ≡ some bs)
    → is_broken (read_chunk c p next r).1 ≡ false
unfolding read_chunk
answered c p next fine (none, v) (bs, e) = absurd (some-none (sym e))
answered c p next fine (some [], v) h = refl
answered c p next fine (some (b ∷ bs), v) h = fine (b ∷ bs) v

read_chunks_answered :
    (c : Connection) (fid m fuel left off : ℕ) (p : Bytes) (w : c.World)
    → Answers c fid
    → m < 2 ^ 32
    → is_broken (read_chunks c fid m fuel left off p w).1 ≡ false
unfolding read_chunks Answers
read_chunks_answered c fid m fuel zero off p w ok small = refl
read_chunks_answered c fid m zero (suc left) off p w ok small = refl
read_chunks_answered c fid m (suc fuel) (suc left) off p w ok small =
    answered c p (λ bs v. read_chunks c fid m fuel (suc left - length bs) off (p ++ bs) v)
      (λ bs v. read_chunks_answered c fid m fuel (suc left - length bs) off (p ++ bs) v ok small)
      (c.rread fid (add_int64 off (length p)) (chunk_len (suc left) m) w)
      (ok (add_int64 off (length p)) (chunk_len (suc left) m) w (chunk_len_small left m small))

-- What the two calls make of a file that accepts the bytes.
module _ (c : Connection) (f : File) (s : Store c f.fid) (p : Bytes) (off : ℕ) where
  wrote_all :
      (old : Bytes) (r : Written c)
      → WriteEnds c s old off 0 p r
      → r.1 ≡ success
      → (r.0 ≡ length p) × (s.contents r.2 ≡ patch old off p)
  wrote_all old r (whole n v count same) e = (omega arith, same)
  wrote_all old r (part k n v few count same) e = absurd (not_success e)
  wrote_all old r (broken k n j u v few count same more sent) e = absurd (not_success e)

  -- A file that is long enough fills the buffer.
  read_all :
      (now : Bytes) (size : ℕ) (r : Read c)
      → ReadEnds c now off size r
      → (0 < size → off + size ≤ length now)
      → is_broken r.1 ≡ false
      → (r.0 ≡ take size (drop off now)) × (r.1 ≡ success)
  read_all now size r (filled q v count same) h e = (same, refl)
  read_all now size r (ended q v few same) h e =
      let n = ap length same ∙ length-drop off now in
      let long = h (omega arith) in absurd (omega arith)
  read_all now size r (ReadEnds.broken k q v few same) h e = absurd (true-false e)

-- The bytes just written stand there.
take-drop-patch :
    (old : Bytes) (off : ℕ) (p : Bytes) → take (length p) (drop off (patch old off p)) ≡ p
unfolding patch
take-drop-patch old off [] = refl
take-drop-patch old off (b ∷ p) = byte_at_extensional _ _ size (λ i.
    elim (Bool-cases (ltb i (length (b ∷ p)))) [
      | inl low ↦
          byte_at-take (length (b ∷ p)) (drop off (patch old off (b ∷ p))) i (ground arith)
          ∙ byte_at-drop off (patch old off (b ∷ p)) i
          ∙ byte_at-patch old off (b ∷ p) (off + i)
          ∙ inside i (ground arith)
      | inr high ↦
          byte_at-past _ i (ground (arith, size)) ∙ sym (byte_at-past (b ∷ p) i (ground arith))
    ])
  where
    size : length (take (length (b ∷ p)) (drop off (patch old off (b ∷ p)))) ≡ length (b ∷ p)
    size =
        let n = length-patch old off (b ∷ p) (omega arith) in
        let d = length-drop off (patch old off (b ∷ p)) in
        length-take (length (b ∷ p)) (drop off (patch old off (b ∷ p))) (ground arith)

    inside :
        (i : ℕ)
        → i < length (b ∷ p)
        → ((if leb off (off + i) && ltb (off + i) (off + length (b ∷ p))
              then byte_at (b ∷ p) (off + i - off)
              else byte_at old (off + i))
            ≡ byte_at (b ∷ p) i)
    inside i h =
        let from : leb off (off + i) ≡ true = ground arith in
        let to : ltb (off + i) (off + length (b ∷ p)) ≡ true = ground arith in
        let e : off + i - off ≡ i = omega arith in rw (from, to, e) refl

served-Accepts : (msize fid : ℕ) → Accepts (served msize) fid max_mem_file_size
unfolding Accepts
served-Accepts msize fid offset bs w h = ap (λ r. r.0) (write_lem w.0 bs offset h)

served-Answers : (msize fid : ℕ) → Answers (served msize) fid
unfolding Answers read Holds
served-Answers msize fid offset count w small =
    (_, read_lem w.0.contents count offset (omega arith) w.1)

module _ (c : Connection) (f : File) (off : ℕ) (live : f.closed ≡ false) (near : off < 2 ^ 63) where
  write_at_accepted :
      (p : Bytes) (w : c.World)
      → Accepts c f.fid max_mem_file_size
      → 24 < c.msize
      → c.msize < 2 ^ 32
      → off + length p ≤ max_mem_file_size
      → (write_at_ctx c f p off w).1 ≡ success
  unfolding write_at_ctx is_empty is_negative write_chunks
  write_at_accepted [] w ok large small h = rw live refl
  write_at_accepted (b ∷ p) w ok large small h =
      let positive : is_negative off ≡ false = ground arith in
      rw (live, positive)
        (write_chunks_accepted c f.fid max_mem_file_size (max_chunk c.msize f.iounit)
          (length (b ∷ p)) (b ∷ p) off 0 w ok (max_chunk_positive c.msize f.iounit large small)
          (omega arith) (omega arith) (omega arith))

  read_at_answered :
      (size : ℕ) (w : c.World) → Answers c f.fid → is_broken (read_at_ctx c f size off w).1 ≡ false
  unfolding read_at_ctx is_negative
  read_at_answered size w ok = elim (Bool-cases (size == 0)) [
    | inl empty ↦ rw (live, empty) refl
    | inr some_asked ↦
        let positive : is_negative off ≡ false = ground arith in
        rw (live, some_asked, positive)
          (read_chunks_answered c f.fid (max_chunk c.msize f.iounit) size size off [] w ok
            (max_chunk_small c.msize f.iounit))
  ]

-- A client with an open File and an msize above the 24 bytes of overhead writes bytes at an offset, in
-- chunks, to an in-memory file that they fit, and reads as many back from there: the write reports all of them and no error, it leaves the file with them in place
-- and otherwise as it was, and the read gives the same bytes and no error.
pub read_back :
    (msize : ℕ) (f : File) (p : Bytes) (off : ℕ) (w : Held)
    → 24 < msize
    → msize < 2 ^ 32
    → f.closed ≡ false
    → off + length p ≤ max_mem_file_size
    → (write_at_ctx (served msize) f p off w).0 ≡ length p
      × (write_at_ctx (served msize) f p off w).1 ≡ success
      × (write_at_ctx (served msize) f p off w).2.0.contents ≡ patch w.0.contents off p
      × (read_at_ctx (served msize) f (length p) off (write_at_ctx (served msize) f p off w).2).0
        ≡ p
      × (read_at_ctx (served msize) f (length p) off (write_at_ctx (served msize) f p off w).2).1
        ≡ success
unfolding file_store
read_back msize f p off w large small live fits =
    let c = served msize in
    let s = file_store msize f.fid in
    let near : off < 2 ^ 63 = omega arith in
    let r = write_at_ctx c f p off w in
    let done =
      write_at_accepted c f off live near p w (served-Accepts msize f.fid) large small fits in
    let wrote =
      wrote_all c f s p off (s.contents w) r
        (write_at_lem c f s p off w large small live near (omega arith)) done in
    let read =
      read_all c f s p off (s.contents r.2) (length p) (read_at_ctx c f (length p) off r.2)
        (read_at_lem c f s (length p) off r.2 large small live near (omega arith))
        (λ some_sent.
          let n = ap length wrote.1 ∙ length-patch (s.contents w) off p some_sent in ground arith)
        (read_at_answered c f off live near (length p) r.2 (served-Answers msize f.fid)) in
    (
      wrote.0,
      done,
      wrote.1,
      read.0 ∙ ap (λ x. take (length p) (drop off x)) wrote.1 ∙ take-drop-patch w.0.contents off p,
      read.1,
    )
