-- ===== src/Proto/Messages.antt =====
-- proto/frame.go and proto/messages.go: the messages that both dialects share, and NewBaseMessage.
pub mod RoundTrip
pub mod Canonical
use ninep.Prelude.{ℕ, List, [], ◌∷◌, Option, none, some}
use ninep.Proto.Base.{Bytes, Result, ok, err, Decoder, pure, ◌>>=◌, unknown_type}
use ninep.Proto.MessageType.{
  type_tversion, type_rversion, type_tauth, type_rauth, type_tattach, type_rattach, type_tflush,
  type_rflush, type_twalk, type_rwalk, type_tread, type_rread, type_twrite, type_rwrite,
  type_tclunk, type_rclunk, type_tremove, type_rremove,
}
use ninep.Proto.Frame.{Dialect, switch}
use ninep.Proto.Session.{
  Tversion, TversionInRange, encode_tversion, decode_tversion, Rversion, RversionInRange,
  encode_rversion, decode_rversion, Tauth, TauthInRange, encode_tauth, decode_tauth, Rauth,
  RauthInRange, encode_rauth, decode_rauth, Tattach, TattachInRange, encode_tattach, decode_tattach,
  Rattach, RattachInRange, encode_rattach, decode_rattach, Tflush, TflushInRange, encode_tflush,
  decode_tflush, Rflush, encode_rflush, decode_rflush,
}
use ninep.Proto.Walk.{
  Twalk, TwalkInRange, encode_twalk, decode_twalk, Rwalk, RwalkInRange, encode_rwalk, decode_rwalk,
}
use ninep.Proto.Transfer.{
  Tread, TreadInRange, encode_tread, decode_tread, Rread, RreadInRange, encode_rread, decode_rread,
  Twrite, TwriteInRange, encode_twrite, decode_twrite, Rwrite, RwriteInRange, encode_rwrite,
  decode_rwrite,
}
use ninep.Proto.Walk.{
  Tclunk, TclunkInRange, encode_tclunk, decode_tclunk, Rclunk, encode_rclunk, decode_rclunk,
  Tremove, TremoveInRange, encode_tremove, decode_tremove, Rremove, encode_rremove, decode_rremove,
}

pub data BaseMessage : Type 0 where
  tversion : Tversion → BaseMessage
  rversion : Rversion → BaseMessage
  tauth : Tauth → BaseMessage
  rauth : Rauth → BaseMessage
  tattach : Tattach → BaseMessage
  rattach : Rattach → BaseMessage
  tflush : Tflush → BaseMessage
  rflush : Rflush → BaseMessage
  twalk : Twalk → BaseMessage
  rwalk : Rwalk → BaseMessage
  tread : Tread → BaseMessage
  rread : Rread → BaseMessage
  twrite : Twrite → BaseMessage
  rwrite : Rwrite → BaseMessage
  tclunk : Tclunk → BaseMessage
  rclunk : Rclunk → BaseMessage
  tremove : Tremove → BaseMessage
  rremove : Rremove → BaseMessage

-- `Type`
unfoldable pub base_type : BaseMessage → ℕ
base_type (tversion m) = type_tversion
base_type (rversion m) = type_rversion
base_type (tauth m) = type_tauth
base_type (rauth m) = type_rauth
base_type (tattach m) = type_tattach
base_type (rattach m) = type_rattach
base_type (tflush m) = type_tflush
base_type (rflush m) = type_rflush
base_type (twalk m) = type_twalk
base_type (rwalk m) = type_rwalk
base_type (tread m) = type_tread
base_type (rread m) = type_rread
base_type (twrite m) = type_twrite
base_type (rwrite m) = type_rwrite
base_type (tclunk m) = type_tclunk
base_type (rclunk m) = type_rclunk
base_type (tremove m) = type_tremove
base_type (rremove m) = type_rremove

-- `EncodeTo`
unfoldable pub base_encode : BaseMessage → Result Bytes
base_encode (tversion m) = encode_tversion m
base_encode (rversion m) = encode_rversion m
base_encode (tauth m) = encode_tauth m
base_encode (rauth m) = encode_rauth m
base_encode (tattach m) = encode_tattach m
base_encode (rattach m) = encode_rattach m
base_encode (tflush m) = encode_tflush m
base_encode (rflush m) = encode_rflush m
base_encode (twalk m) = encode_twalk m
base_encode (rwalk m) = encode_rwalk m
base_encode (tread m) = encode_tread m
base_encode (rread m) = encode_rread m
base_encode (twrite m) = encode_twrite m
base_encode (rwrite m) = encode_rwrite m
base_encode (tclunk m) = encode_tclunk m
base_encode (rclunk m) = encode_rclunk m
base_encode (tremove m) = encode_tremove m
base_encode (rremove m) = encode_rremove m

abbrev pub BaseMessageInRange : BaseMessage → Type 0
BaseMessageInRange (tversion m) = TversionInRange m
BaseMessageInRange (rversion m) = RversionInRange m
BaseMessageInRange (tauth m) = TauthInRange m
BaseMessageInRange (rauth m) = RauthInRange m
BaseMessageInRange (tattach m) = TattachInRange m
BaseMessageInRange (rattach m) = RattachInRange m
BaseMessageInRange (tflush m) = TflushInRange m
BaseMessageInRange (rflush m) = Unit {0}
BaseMessageInRange (twalk m) = TwalkInRange m
BaseMessageInRange (rwalk m) = RwalkInRange m
BaseMessageInRange (tread m) = TreadInRange m
BaseMessageInRange (rread m) = RreadInRange m
BaseMessageInRange (twrite m) = TwriteInRange m
BaseMessageInRange (rwrite m) = RwriteInRange m
BaseMessageInRange (tclunk m) = TclunkInRange m
BaseMessageInRange (rclunk m) = Unit {0}
BaseMessageInRange (tremove m) = TremoveInRange m
BaseMessageInRange (rremove m) = Unit {0}

-- The cases of the switch, each with the DecodeFrom of its message.
unfoldable pub base_cases : List (ℕ × Decoder BaseMessage)
base_cases =
    (type_tversion, do m ← decode_tversion; pure (tversion m))
    ∷ (type_rversion, do m ← decode_rversion; pure (rversion m))
    ∷ (type_tauth, do m ← decode_tauth; pure (tauth m))
    ∷ (type_rauth, do m ← decode_rauth; pure (rauth m))
    ∷ (type_tattach, do m ← decode_tattach; pure (tattach m))
    ∷ (type_rattach, do m ← decode_rattach; pure (rattach m))
    ∷ (type_tflush, do m ← decode_tflush; pure (tflush m))
    ∷ (type_rflush, do m ← decode_rflush; pure (rflush m))
    ∷ (type_twalk, do m ← decode_twalk; pure (twalk m))
    ∷ (type_rwalk, do m ← decode_rwalk; pure (rwalk m))
    ∷ (type_tread, do m ← decode_tread; pure (tread m))
    ∷ (type_rread, do m ← decode_rread; pure (rread m))
    ∷ (type_twrite, do m ← decode_twrite; pure (twrite m))
    ∷ (type_rwrite, do m ← decode_rwrite; pure (rwrite m))
    ∷ (type_tclunk, do m ← decode_tclunk; pure (tclunk m))
    ∷ (type_rclunk, do m ← decode_rclunk; pure (rclunk m))
    ∷ (type_tremove, do m ← decode_tremove; pure (tremove m))
    ∷ (type_rremove, do m ← decode_rremove; pure (rremove m))
    ∷ []

unfoldable pub new_base_message : ℕ → Option (Decoder BaseMessage)
unfolding base_cases
new_base_message t = switch t base_cases
