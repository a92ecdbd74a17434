-- ===== src/Proto/Frame.antt =====
-- proto/frame.go: EncodeFrame and DecodeFrame, over the interface `Message` of proto/message.go and
-- the function `newMessage` of a dialect, and the switch of NewBaseMessage.
pub mod Laws
pub mod RoundTrip
pub mod Canonical
pub mod Streams
use ninep.Prelude.{
  ℕ, ◌+◌, ◌-◌, List, [], ◌∷◌, ◌++◌, length, Option, none, some, leb, ◌==◌, if◌then◌else◌,
}
use ninep.Proto.Base.{
  Bytes, Result, ok, err, Decoder, pure, fail, guard, ◌>>=◌, put_le, header_size, max_data_size,
  frame_too_small, frame_too_large, trailing_bytes,
}
use ninep.Proto.Decode.{read_full, read_uint8, read_uint16, read_uint32}

-- `newMessage` makes an empty message of the type that a byte names; what DecodeFrame does with it
-- is to call its DecodeFrom, and this reader stands for it.
pub record Dialect : Type 1 where
  pub Message : Type 0
  pub type_of : Message → ℕ
  pub encode_to : Message → Result Bytes
  pub new_message : ℕ → Result (Decoder Message)

abbrev pub max_message_size : ℕ
max_message_size = header_size + max_data_size + 4096

-- A Go switch on a number, each case with its value.
unfoldable pub switch {ℓ} : {A : Type ℓ} → ℕ → List (ℕ × A) → Option A
switch t [] = none
switch t ((u, a) ∷ cases) = if t == u then some a else switch t cases

unfoldable pub frame : ℕ → ℕ → Bytes → Bytes
frame type tag body =
    put_le 4 (header_size + length body) ++ (put_le 1 type ++ (put_le 2 tag ++ body))

unfoldable pub lift {ℓ} : {A : Type ℓ} → Result A → Decoder A
lift (ok a) src = ok (a, src)
lift (err e) src = err e

-- The body is read whole, and then decoded by a reader of its own that must come to its end.
unfoldable pub exactly {ℓ} : {A : Type ℓ} → Result (A × Bytes) → Result A
exactly (ok (a, [])) = ok a
exactly (ok (a, b ∷ rest)) = err trailing_bytes
exactly (err e) = err e

module _ (d : Dialect) where
  open d use {Message, type_of, encode_to, new_message}

  unfoldable pub encode_frame : ℕ → Message → Result Bytes
  encode_frame tag msg = elim (encode_to msg) [
    | ok body ↦ ok (frame (type_of msg) tag body)
    | err e ↦ err e
  ]

  unfoldable pub decode_frame : Decoder (ℕ × Message)
  decode_frame = do
    size ← read_uint32
    _ ← guard (leb header_size size) frame_too_small
    _ ← guard (leb size max_message_size) frame_too_large
    msg_type ← read_uint8
    tag ← read_uint16
    decode_from ← lift (new_message msg_type)
    body ← read_full (size - header_size)
    msg ← lift (exactly (decode_from body))
    pure (tag, msg)
