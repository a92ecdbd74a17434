-- ===== src/Proto/Frame/Canonical.antt =====
-- proto/frame.go: what DecodeFrame accepts is what EncodeFrame writes.
use ninep.Prelude.{
  ℕ, ◌+◌, ◌-◌, ◌≡◌, refl, ap, sym, ◌∙◌, true, [], ◌++◌, length, All, leb, leb→le, append-nil, arith,
}
use mathlib.Core.Path.{ap₂}
use ninep.Proto.Base.{Bytes, Result, ok, err, Decoder, ◌>>◌, done, ◌>>=◌, IsU8, IsU16, header_size}
use ninep.Proto.Encode.{write_uint8, write_uint16, write_uint32, write_bytes}
use ninep.Proto.Laws.Recodes.{
  Took, Recodes, Whole, field, guarded, end, uint8, uint16, uint32, slice,
}
use ninep.Proto.Frame.{Dialect, lift, exactly, encode_frame, decode_frame}
use ninep.Proto.Frame.Laws.{IsDialect, frame-writers, encode_frame-eq-ok}

module _ {A : Type 0} (k : Result Bytes → Result Bytes) (w : A → Result Bytes)
    (P : A → Type 0) where
  lifted :
      {B : Type 0} (r : Result B) (f : B → Decoder A)
      → ((b : B) → r ≡ ok b → Recodes (f b) k w P)
      → Recodes (lift r >>= f) k w P
  unfolding lift ◌>>=◌
  lifted (ok b) f s = record { at = (s b refl).at }
  lifted (err e) f s = record { at = λ src a rest h q. cc }

at_end : {A : Type 0} (r : Result (A × Bytes)) (a : A) → exactly r ≡ ok a → r ≡ ok (a, [])
unfolding exactly
at_end r a h = ground arith

-- The body that was read is the body that is written, under the size and the type that were read.
same_frame :
    (d : Dialect) {P : d.Message → Type 0} (tag : ℕ) (m : d.Message) (size type : ℕ) (body : Bytes)
    → Took (λ x. x) d.encode_to (λ m. P m × (d.type_of m ≡ type)) body m []
    → leb header_size size ≡ true
    → length body ≡ size - header_size
    → encode_frame d tag m ≡ (
        write_uint32 size >> (write_uint8 type >> (write_uint16 tag >> (write_bytes body >> done))))
same_frame d tag m size type body t lo e =
    let written : d.encode_to m ≡ ok body = t.same ∙ ap ok (sym (t.split ∙ append-nil t.taken)) in
    let total : header_size + length body ≡ size = omega (arith, e, leb→le _ _ lo) in
    encode_frame-eq-ok d tag m body written
    ∙ sym (frame-writers (d.type_of m) tag body)
    ∙ ap₂
        (λ n t.
          write_uint32 n >> (write_uint8 t >> (write_uint16 tag >> (write_bytes body >> done))))
        total t.valid.1

module _ {d : Dialect} (l : IsDialect d) where
  abbrev pub Sendable : ℕ × d.Message → Type 0
  Sendable (tag, m) = IsU16 tag × l.InRange m

  pub frame_recodes : Whole (decode_frame d) (λ z. encode_frame d z.0 z.1) Sendable
  unfolding decode_frame
  frame_recodes = field _ _ _ _ uint32 λ size h_size. guarded _ _ _ _ _ _ λ lo.
      guarded _ _ _ _ _ _ λ hi. field _ _ _ _ uint8 λ type h_type. field _ _ _ _ uint16 λ tag h_tag.
        lifted _ _ _ _ _ λ read made. field _ _ _ _ (slice _) λ body h_body.
          lifted _ _ _ _ _ λ m whole.
            let t = (l.recodes type read made).at body m [] h_body.0 (at_end _ _ whole) in
            end _ _ _ _ (same_frame d tag m size type body t lo h_body.1) (h_tag, t.valid.0)

  -- A frame that DecodeFrame accepts is, byte for byte, the frame that EncodeFrame writes for the tag
  -- and the message returned; the tag and every field are in the range of their types.
  pub encode_frame-decode_frame :
      (src rest : Bytes) (tag : ℕ) (m : d.Message)
      → All IsU8 src
      → decode_frame d src ≡ ok ((tag, m), rest)
      → (bs : Bytes) × (encode_frame d tag m ≡ ok bs) × (src ≡ bs ++ rest) × IsU16 tag × l.InRange m
  encode_frame-decode_frame src rest tag m h e =
      let t = frame_recodes.at src (tag, m) rest h e in
      (t.taken, t.same, t.split, t.valid.0, t.valid.1)
