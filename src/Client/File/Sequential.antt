-- ===== src/Client/File/Sequential.antt =====
-- WriteCtx of client/file.go against WriteAtCtx.
use ninep.Prelude.{
  ℕ, zero, suc, ◌+◌, ◌^◌, ◌<◌, ◌≡◌, refl, ap, ◌∙◌, [], ◌∷◌, Bool, true, false, Option, none, some,
  inl, inr, ltb, Bool-cases, length, take, drop, if◌then◌else◌, arith,
}
use ninep.Proto.Base.{Bytes}
use ninep.Client.File.{
  Connection, File, Written, Ending, success, unfinished, add_int64, max_chunk, twrite, is_empty,
  is_negative, write_at_ctx, write_ctx, wrote_chunk, wrote_next, write_chunks, write_rounds,
}

module _ (c : Connection) where
  -- The File after a write from the offset `off` on.
  abbrev after : File → ℕ → Written c → Written c × File
  after f off r = (r, record f { offset = add_int64 off r.0 })

  -- A round of WriteCtx at the offset that WriteAtCtx has reached.
  wrote_next-wrote_chunk :
      (f : File) (off total size : ℕ) (next : ℕ → File → c.World → Written c × File)
      (at : ℕ → c.World → Written c) (r : Option ℕ × c.World)
      → f.offset ≡ add_int64 off total
      → ((n : ℕ) (v : c.World)
          → next n (record f { offset = add_int64 f.offset n }) v ≡ after f off (at n v))
      → wrote_next c f total size next r ≡ after f off (wrote_chunk c total size at r)
  unfolding wrote_next wrote_chunk
  wrote_next-wrote_chunk f off total size next at (none, w) here same =
      ap (λ o. (wrote_chunk c total size at (none, w), record f { offset = o })) here
  wrote_next-wrote_chunk f off total size next at (some n, w) here same =
      elim (Bool-cases (ltb n size)) [
        | inl short ↦
            let e : add_int64 f.offset n ≡ add_int64 off (total + n) = omega (arith, here) in
            rw (short, e) refl
        | inr full ↦ rw full (same n w)
      ]

  write_rounds-write_chunks :
      (fuel : ℕ) (f : File) (p : Bytes) (off total : ℕ) (w : c.World)
      → f.offset ≡ add_int64 off total
      → (write_rounds c fuel f p total w
          ≡ after f off (write_chunks c f.fid (max_chunk c.msize f.iounit) fuel p off total w))
  unfolding write_rounds write_chunks
  write_rounds-write_chunks fuel f [] off total w here =
      ap (λ o. ((total, success, w), record f { offset = o })) here
  write_rounds-write_chunks zero f (b ∷ p) off total w here =
      ap (λ o. ((total, unfinished, w), record f { offset = o })) here
  write_rounds-write_chunks (suc fuel) f (b ∷ p) off total w here =
      let m = max_chunk c.msize f.iounit in
      let chunk = if ltb m (length (b ∷ p)) then take m (b ∷ p) else b ∷ p in
      ap
        (λ o.
          wrote_next c f total (length chunk)
            (λ n g v. write_rounds c fuel g (drop n (b ∷ p)) (total + n) v)
            (twrite c f.fid o chunk w))
        here
      ∙ wrote_next-wrote_chunk f off total (length chunk)
          (λ n g v. write_rounds c fuel g (drop n (b ∷ p)) (total + n) v)
          (λ n v. write_chunks c f.fid m fuel (drop n (b ∷ p)) off (total + n) v)
          (twrite c f.fid (add_int64 off total) chunk w) here
          (λ n v.
            write_rounds-write_chunks fuel (record f { offset = add_int64 f.offset n })
              (drop n (b ∷ p)) off (total + n) v (omega (arith, here)))

  -- An early return with no bytes written does not move the offset.
  early :
      (f : File) (b : Bool) (e : Ending) (w : c.World) (r : Written c) (s : Written c × File)
      → f.offset < 2 ^ 64
      → s ≡ after f f.offset r
      → (if b then ((0, e, w), f) else s) ≡ after f f.offset (if b then (0, e, w) else r)
  early f true e w r s h same =
      let unmoved : f.offset ≡ add_int64 f.offset 0 = omega arith in
      ap (λ o. ((0, e, w), record f { offset = o })) unmoved
  early f false e w r s h same = same

-- For an offset of 64 bits, Write is WriteAt at the offset of the File, which then moves on by the
-- count, after an error too.
pub write_ctx_lem :
    (c : Connection) (f : File) (p : Bytes) (w : c.World)
    → f.offset < 2 ^ 64
    → let r = write_at_ctx c f p f.offset w in
      write_ctx c f p w ≡ (r, record f { offset = add_int64 f.offset r.0 })
unfolding write_at_ctx write_ctx
write_ctx_lem c f p w h = early c f f.closed _ w _ _ h (
    early c f (is_empty p) _ w _ _ h (
      early c f (is_negative f.offset) _ w _ _ h
        (write_rounds-write_chunks c (length p) f p f.offset 0 w (omega arith))))
