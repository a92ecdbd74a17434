-- ===== src/Proto/Frame/Streams.antt =====
-- proto/frame.go: frames one after the other on a stream, and frames that are cut short.
use ninep.Prelude.{
  ℕ, ◌+◌, ◌≡◌, ◌≢◌, ◌↔◌, ap, sym, ◌∙◌, List, [], ◌∷◌, ◌++◌, length, All, append_assoc, append-nil,
}
use ninep.Proto.Base.{Bytes, Result, ok, header_size, IsU8, IsU16}
use ninep.Proto.Encode.{write_all}
use ninep.Proto.Decode.{read_many}
use ninep.Proto.Laws.Reads.{Reads, body_limit, repeated}
use ninep.Proto.Frame.{Dialect, encode_frame, decode_frame}
use ninep.Proto.Frame.Laws.{IsDialect}
use ninep.Proto.Frame.RoundTrip.{decode_frame-encode_frame, frame_Reads}
use ninep.Proto.Laws.Recodes.{Took, Recodes}
use ninep.Proto.Laws.Recodes as Recodes
use ninep.Proto.Frame.Canonical.{Sendable, frame_recodes, encode_frame-decode_frame}

module _ {d : Dialect} (l : IsDialect d) where
  All-reads :
      (frames : List (ℕ × d.Message))
      → All (Sendable l) frames
      → All
          (λ z. Reads (encode_frame d z.0 z.1) (header_size + body_limit) (decode_frame d) z)
          frames
  All-reads [] h = tt
  All-reads ((tag, m) ∷ frames) ((ht, hm), h) = (frame_Reads l tag m ht hm, All-reads frames h)

  -- In a dialect that keeps the laws of IsDialect: reading as many frames as a list has, off a stream of
  -- bytes, brings exactly this list and leaves exactly `rest`, if and only if the tag and the message of
  -- each frame are in range and the stream is what EncodeFrame wrote for them one after the other, and
  -- then `rest`.
  pub read_frames-write_frames :
      (frames : List (ℕ × d.Message)) (src rest : Bytes)
      → All IsU8 src
      → (read_many (length frames) (decode_frame d) src ≡ ok (frames, rest)) ↔ (
          (bs : Bytes) × All (Sendable l) frames
          × (write_all (λ z. encode_frame d z.0 z.1) frames ≡ ok bs)
          × (src ≡ bs ++ rest))
  read_frames-write_frames frames src rest u = (
    λ e.
        let t =
          (Recodes.repeated (length frames) (decode_frame d) _ _ (frame_recodes l)).at src frames
            rest u e in
        (t.taken, t.valid.0, t.same, t.split),
    λ (bs, h, written, split).
        ap (read_many (length frames) (decode_frame d)) split
        ∙ (repeated _ _ _ frames (All-reads frames h)).back bs rest written,
  )

  -- In a dialect that keeps the laws of IsDialect, a frame of a tag and a message in range that is cut
  -- short anywhere is never taken for a message.
  pub decode_frame_truncated :
      (tag x : ℕ) (m : d.Message) (front back : Bytes) (z : (ℕ × d.Message) × Bytes)
      → IsU16 tag
      → l.InRange m
      → All IsU8 front
      → encode_frame d tag m ≡ ok (front ++ (x ∷ back))
      → decode_frame d front ≢ ok z
  decode_frame_truncated tag x m front back ((u, n), rest) ht hm h e q =
      let (bs, again, split, hu, hn) = encode_frame-decode_frame l front rest u n h q in
      let one : decode_frame d ((front ++ (x ∷ back)) ++ []) ≡ ok ((tag, m), []) =
        decode_frame-encode_frame l tag m (front ++ (x ∷ back)) [] ht hm e in
      let two : decode_frame d (bs ++ (rest ++ (x ∷ back))) ≡ ok ((u, n), rest ++ (x ∷ back)) =
        decode_frame-encode_frame l u n bs (rest ++ (x ∷ back)) hu hn again in
      let same : (front ++ (x ∷ back)) ++ [] ≡ bs ++ (rest ++ (x ∷ back)) =
        append-nil _ ∙ ap (λ s. s ++ (x ∷ back)) split ∙ append_assoc bs rest (x ∷ back) in
      not_empty rest (rests (sym one ∙ ap (decode_frame d) same ∙ two))
    where
      rests :
          {a b : ℕ × d.Message} {s t : Bytes}
          → ◌≡◌ {A = Result ((ℕ × d.Message) × Bytes)} (ok (a, s)) (ok (b, t))
          → s ≡ t
      rests p = cc

      not_empty : (s : Bytes) → [] ≡ s ++ (x ∷ back) → ⊥
      not_empty [] p = cc
      not_empty (b ∷ s) p = cc
