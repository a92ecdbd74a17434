-- ===== src/Tests/Frames.antt =====
-- Frames of 9P2000.L: a walk of two names, and a lock request.
use ninep.Prelude.{ℕ, ◌≡◌, ◌≢◌, refl, [], ◌∷◌, ◌++◌, take, drop, ◌^◌, arith}
use ninep.Proto.Base.{Bytes, ok, err, IsU16, trailing_bytes}
use ninep.Proto.Encode.{write_all}
use ninep.Proto.Decode.{read_many}
use ninep.Proto.Frame.{encode_frame, decode_frame}
use ninep.Tests.Code.{codec}
use ninep.Proto.Frame.Canonical.{Sendable}
use ninep.Proto.Frame.Streams.{read_frames-write_frames, decode_frame_truncated}
use ninep.Proto.Messages.{BaseMessage}
use ninep.P9l.Messages.{Message, MessageInRange, shared, tlock, p9l}
use ninep.P9l.Codec.{encode, decode, p9l-IsDialect, decode-encode, encode-decode}

abbrev walk : Message
walk = shared (
    BaseMessage.twalk
      (record { fid = 1; new_fid = 2; names = (b'e' ∷ b't' ∷ b'c' ∷ []) ∷ (b'x' ∷ []) ∷ [] }))

abbrev walk_bytes : Bytes
walk_bytes =
    25 ∷ 0 ∷ 0 ∷ 0 ∷ 110 ∷ 7 ∷ 0 ∷ 1 ∷ 0 ∷ 0 ∷ 0 ∷ 2 ∷ 0 ∷ 0 ∷ 0 ∷ 2 ∷ 0 ∷ 3 ∷ 0 ∷ b'e' ∷ b't'
    ∷ b'c' ∷ 1 ∷ 0 ∷ b'x' ∷ []

encode-walk : encode 7 walk ≡ ok walk_bytes
unfolding codec
encode-walk = refl

decode-walk : decode (walk_bytes ++ (9 ∷ [])) ≡ ok ((7, walk), 9 ∷ [])
unfolding codec
decode-walk = refl

-- One byte too many inside the frame.
decode_trailing : decode (26 ∷ drop 1 walk_bytes ++ (9 ∷ [])) ≡ err trailing_bytes
unfolding codec
decode_trailing = refl

decode-encode_example : decode (walk_bytes ++ (9 ∷ [])) ≡ ok ((7, walk), 9 ∷ [])
decode-encode_example =
    decode-encode 7 walk walk_bytes (9 ∷ []) (omega arith)
      (record { fid = omega arith; new_fid = omega arith }) encode-walk

encode-decode_example :
    (bs : Bytes) × (encode 7 walk ≡ ok bs)
    × (walk_bytes ++ (9 ∷ []) ≡ bs ++ (9 ∷ []))
    × IsU16 7
    × MessageInRange walk
encode-decode_example =
    encode-decode (walk_bytes ++ (9 ∷ [])) (9 ∷ []) 7 walk (omega arith) decode-walk

abbrev lock : Message
lock = tlock (record {
  fid = 3;
  lock_type = 1;
  flags = 1;
  start = 0;
  length = 2 ^ 63;
  proc_id = 40;
  client_id = b'h' ∷ [];
})

abbrev lock_bytes : Bytes
lock_bytes =
    39 ∷ 0 ∷ 0 ∷ 0 ∷ 52 ∷ 8 ∷ 0 ∷ 3 ∷ 0 ∷ 0 ∷ 0 ∷ 1 ∷ 1 ∷ 0 ∷ 0 ∷ 0 ∷ 0 ∷ 0 ∷ 0 ∷ 0 ∷ 0 ∷ 0 ∷ 0 ∷ 0
    ∷ 0 ∷ 0 ∷ 0 ∷ 0 ∷ 0 ∷ 0 ∷ 0 ∷ 128 ∷ 40 ∷ 0 ∷ 0 ∷ 0 ∷ 1 ∷ 0 ∷ b'h' ∷ []

walk-Sendable : Sendable p9l-IsDialect (7, walk)
unfolding p9l-IsDialect
walk-Sendable = (omega arith, record { fid = omega arith; new_fid = omega arith })

lock-Sendable : Sendable p9l-IsDialect (8, lock)
unfolding p9l-IsDialect
lock-Sendable = (
  omega arith,
  record {
    fid = omega arith;
    lock_type = omega arith;
    flags = omega arith;
    start = omega arith;
    length = omega arith;
    proc_id = omega arith;
  },
)

two_frames :
    write_all (λ (z : ℕ × Message). encode_frame p9l z.0 z.1) ((7, walk) ∷ (8, lock) ∷ [])
    ≡ ok (walk_bytes ++ lock_bytes)
unfolding codec
two_frames = refl

read_frames-write_frames_example :
    read_many 2 (decode_frame p9l) ((walk_bytes ++ lock_bytes) ++ (9 ∷ []))
    ≡ ok ((7, walk) ∷ (8, lock) ∷ [], 9 ∷ [])
read_frames-write_frames_example =
    (read_frames-write_frames p9l-IsDialect ((7, walk) ∷ (8, lock) ∷ [])
        ((walk_bytes ++ lock_bytes) ++ (9 ∷ [])) (9 ∷ []) (omega arith)).1
      (walk_bytes ++ lock_bytes, (walk-Sendable, (lock-Sendable, tt)), two_frames, refl)

decode_frame_truncated_example : decode_frame p9l (take 24 walk_bytes) ≢ ok ((7, walk), [])
unfolding encode_frame encode
decode_frame_truncated_example =
    decode_frame_truncated p9l-IsDialect 7 b'x' walk (take 24 walk_bytes) [] ((7, walk), [])
      walk-Sendable.0 walk-Sendable.1 (omega arith) encode-walk
