-- ===== src/P9l/Codec.antt =====
-- proto/p9l/codec.go: Encode and Decode, at the messages of 9P2000.L.
use ninep.Prelude.{ℕ, ◌≡◌, ◌++◌, All, arith}
use ninep.Proto.Base.{Bytes, Result, ok, Decoder, IsU8, IsU16}
use ninep.Proto.Frame.{encode_frame, decode_frame}
use ninep.Proto.Frame.Laws.{IsDialect}
use ninep.Proto.Frame.RoundTrip.{decode_frame-encode_frame}
use ninep.Proto.Frame.Canonical.{encode_frame-decode_frame}
use ninep.Proto.Messages.{BaseMessage, base_type, tversion}
use ninep.P9l.Messages.{Message, MessageInRange, shared, rlerror, p9l, p9l_type}
use ninep.P9l.Messages.RoundTrip.{p9l-Constructs}
use ninep.P9l.Messages.Canonical.{p9l_recodes}

unfoldable pub encode : ℕ → Message → Result Bytes
encode tag msg = encode_frame p9l tag msg

unfoldable pub decode : Decoder (ℕ × Message)
decode = decode_frame p9l

base_type-IsU8 : (m : BaseMessage) → IsU8 (base_type m)
unfolding base_type
base_type-IsU8 (tversion m) = omega arith
base_type-IsU8 m = omega arith

p9l_type-IsU8 : (m : Message) → IsU8 (p9l_type m)
unfolding p9l_type
p9l_type-IsU8 (shared m) = base_type-IsU8 m
p9l_type-IsU8 (rlerror m) = omega arith
p9l_type-IsU8 m = omega arith

unfoldable pub p9l-IsDialect : IsDialect p9l
unfolding p9l_type-IsU8 base_type-IsU8
p9l-IsDialect = record {
  InRange = MessageInRange;
  type_byte = p9l_type-IsU8;
  constructs = p9l-Constructs;
  recodes = p9l_recodes;
}

-- A frame that Encode wrote for a tag and a message whose fields are in the range of their Go types
-- (lock types, lock flags and lock statuses in the range that the protocol defines) is read back by
-- Decode as that tag and message, and whatever follows the frame is left on the stream.
pub decode-encode :
    (tag : ℕ) (m : Message) (bs rest : Bytes)
    → IsU16 tag
    → MessageInRange m
    → encode tag m ≡ ok bs
    → decode (bs ++ rest) ≡ ok ((tag, m), rest)
unfolding encode decode p9l-IsDialect
decode-encode tag m bs rest = decode_frame-encode_frame p9l-IsDialect tag m bs rest

-- A frame that Decode accepts at the front of a byte stream is, byte for byte, the frame that Encode
-- writes for the tag and message that Decode returned, and these are in range.
pub encode-decode :
    (src rest : Bytes) (tag : ℕ) (m : Message)
    → All IsU8 src
    → decode src ≡ ok ((tag, m), rest)
    → (bs : Bytes) × (encode tag m ≡ ok bs) × (src ≡ bs ++ rest) × IsU16 tag × MessageInRange m
unfolding encode decode p9l-IsDialect
encode-decode src rest tag m = encode_frame-decode_frame p9l-IsDialect src rest tag m
