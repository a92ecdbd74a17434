-- ===== src/Proto/Frame/RoundTrip.antt =====
-- proto/frame.go: DecodeFrame gives back what EncodeFrame wrote.
use ninep.Prelude.{
  ℕ, ◌+◌, ◌-◌, ◌≤◌, ◌≡◌, ◌⊎◌, inl, inr, refl, ap, [], ◌++◌, length, le→leb, append-nil, arith,
}
use mathlib.Core.Path.{subst}
use ninep.Proto.Base.{Bytes, Error, Result, ok, err, Decoder, ◌>>=◌, IsU16, header_size}
use ninep.Proto.Encode.{write_bytes}
use ninep.Proto.Decode.{read_full}
use ninep.Proto.Laws.Reads.{
  Reads, body_limit, upto, field, guarded, end, uint8, uint16, uint32, slice,
}
use ninep.Proto.Frame.{Dialect, frame, lift, exactly, encode_frame, decode_frame}
use ninep.Proto.Frame.Laws.{IsDialect, frame-writers, encode_frame-eq-ok}

Result-cases : {A : Type 0} (r : Result A) → ((a : A) × (r ≡ ok a)) ⊎ ((e : Error) × (r ≡ err e))
Result-cases (ok a) = inl (a, refl)
Result-cases (err e) = inr (e, refl)

ok_inj : {x y : Bytes} → ◌≡◌ {A = Result Bytes} (ok x) (ok y) → x ≡ y
ok_inj h = cc

lifted :
    {A B : Type 0} {w : Result Bytes} {n : ℕ} {r : Result B} {b : B} {a : A} (f : B → Decoder A)
    → r ≡ ok b
    → Reads w n (f b) a
    → Reads w n (lift r >>= f) a
unfolding lift ◌>>=◌
lifted f h s = record { back = λ bs rest e. rw h (s.back bs rest e); size = s.size }

sized :
    (s : Bytes) {k n : ℕ} → k ≡ length s → length s ≤ n → Reads (write_bytes s) n (read_full k) s
sized s e h = rw e (slice s _ h)

at_end :
    {A : Type 0} (read : Decoder A) (body : Bytes) {a : A}
    → read (body ++ []) ≡ ok (a, [])
    → exactly (read body) ≡ ok a
unfolding exactly
at_end read body h = ap exactly (rw append-nil at h)

module _ {d : Dialect} (l : IsDialect d) where
  frame_reads :
      (tag : ℕ) (m : d.Message) (body : Bytes)
      → IsU16 tag
      → l.InRange m
      → d.encode_to m ≡ ok body
      → Reads
          (ok (frame (d.type_of m) tag body))
          (header_size + body_limit)
          (decode_frame d)
          (tag, m)
  unfolding decode_frame
  frame_reads tag m body ht hm e =
      let (read, made, reads) = l.constructs m hm in
      let short : length body ≤ body_limit = reads.size body e in
      let whole : exactly (read body) ≡ ok m = at_end read body (reads.back body [] e) in
      let size : header_size + length body - header_size ≡ length body = omega arith in
      subst (λ w. Reads w (header_size + body_limit) (decode_frame d) (tag, m))
        (frame-writers (d.type_of m) tag body)
        (upto _
          (field _ (uint32 (omega arith)) (
            guarded _ _ (le→leb _ _ (omega arith)) (
              guarded _ _ (le→leb _ _ (omega arith)) (
                field _ (uint8 (l.type_byte m)) (
                  field _ (uint16 ht)
                    (lifted _ made (field _ (sized body size short) (lifted _ whole (end _)))))))))
          (omega arith))

  -- EncodeFrame as a writer.
  pub frame_Reads :
      (tag : ℕ) (m : d.Message)
      → IsU16 tag
      → l.InRange m
      → Reads (encode_frame d tag m) (header_size + body_limit) (decode_frame d) (tag, m)
  unfolding encode_frame
  frame_Reads tag m ht hm = elim (Result-cases (d.encode_to m)) [
    | inl (body, p) ↦ rw (encode_frame-eq-ok d tag m body p) (frame_reads tag m body ht hm p)
    | inr (x, p) ↦
        let failed : encode_frame d tag m ≡ err x = rw (p, encode_frame) in
        record { back = λ bs rest e. cc failed; size = λ bs e. cc failed }
  ]

  -- Whatever follows on the stream, DecodeFrame returns the tag and the message that EncodeFrame was
  -- given, and leaves what follows; so no message that EncodeFrame writes is refused as too large.
  pub decode_frame-encode_frame :
      (tag : ℕ) (m : d.Message) (bs rest : Bytes)
      → IsU16 tag
      → l.InRange m
      → encode_frame d tag m ≡ ok bs
      → decode_frame d (bs ++ rest) ≡ ok ((tag, m), rest)
  decode_frame-encode_frame tag m bs rest ht hm = (frame_Reads tag m ht hm).back bs rest
