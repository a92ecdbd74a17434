-- ===== src/Proto/Messages/RoundTrip.antt =====
-- proto/frame.go and proto/messages.go: every message's type byte names its reader.
use ninep.Prelude.{◌≡◌, refl, Option, some}
use ninep.Proto.Base.{Bytes, Result, Decoder}
use ninep.Proto.Session.RoundTrip.{
  tversion_reads, rversion_reads, tauth_reads, rauth_reads, tattach_reads, rattach_reads,
  tflush_reads, rflush_reads,
}
use ninep.Proto.Walk.RoundTrip.{twalk_reads, rwalk_reads}
use ninep.Proto.Transfer.RoundTrip.{tread_reads, rread_reads, twrite_reads, rwrite_reads}
use ninep.Proto.Walk.RoundTrip.{tclunk_reads, rclunk_reads, tremove_reads, rremove_reads}
use ninep.Proto.Laws.Reads.{Reads, body_limit, mapped}
use ninep.Proto.Frame.{switch}
use ninep.Proto.Messages.{
  BaseMessage, BaseMessageInRange, tversion, rversion, tauth, rauth, tattach, rattach, tflush,
  rflush, twalk, rwalk, tread, rread, twrite, rwrite, tclunk, rclunk, tremove, rremove,
  new_base_message, base_type, base_encode, base_cases,
}

abbrev pub Constructs : Option (Decoder BaseMessage) → Result Bytes → BaseMessage → Type 0
Constructs r w m = (read : Decoder BaseMessage) × (r ≡ some read) × Reads w body_limit read m

pub base-Constructs :
    (m : BaseMessage)
    → BaseMessageInRange m
    → Constructs (new_base_message (base_type m)) (base_encode m) m
unfolding new_base_message base_type base_encode base_cases switch
base-Constructs (tversion m) h = (_, refl, mapped tversion (tversion_reads m h))
base-Constructs (rversion m) h = (_, refl, mapped rversion (rversion_reads m h))
base-Constructs (tauth m) h = (_, refl, mapped tauth (tauth_reads m h))
base-Constructs (rauth m) h = (_, refl, mapped rauth (rauth_reads m h))
base-Constructs (tattach m) h = (_, refl, mapped tattach (tattach_reads m h))
base-Constructs (rattach m) h = (_, refl, mapped rattach (rattach_reads m h))
base-Constructs (tflush m) h = (_, refl, mapped tflush (tflush_reads m h))
base-Constructs (rflush m) h = (_, refl, mapped rflush (rflush_reads m))
base-Constructs (twalk m) h = (_, refl, mapped twalk (twalk_reads m h))
base-Constructs (rwalk m) h = (_, refl, mapped rwalk (rwalk_reads m h))
base-Constructs (tread m) h = (_, refl, mapped tread (tread_reads m h))
base-Constructs (rread m) h = (_, refl, mapped rread (rread_reads m))
base-Constructs (twrite m) h = (_, refl, mapped twrite (twrite_reads m h))
base-Constructs (rwrite m) h = (_, refl, mapped rwrite (rwrite_reads m h))
base-Constructs (tclunk m) h = (_, refl, mapped tclunk (tclunk_reads m h))
base-Constructs (rclunk m) h = (_, refl, mapped rclunk (rclunk_reads m))
base-Constructs (tremove m) h = (_, refl, mapped tremove (tremove_reads m h))
base-Constructs (rremove m) h = (_, refl, mapped rremove (rremove_reads m))
