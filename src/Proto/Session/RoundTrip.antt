-- ===== src/Proto/Session/RoundTrip.antt =====
-- proto/messages.go: the reader gives back each message that the writer wrote.
use ninep.Prelude.{arith}
use ninep.Proto.Laws.Reads.{Reads, body_limit, end, field, upto, uint16, uint32, fid, string, qid}
use ninep.Proto.Session.{
  Tversion, TversionInRange, encode_tversion, decode_tversion, Rversion, RversionInRange,
  encode_rversion, decode_rversion, Tauth, TauthInRange, encode_tauth, decode_tauth, Rauth,
  RauthInRange, encode_rauth, decode_rauth, Tattach, TattachInRange, encode_tattach, decode_tattach,
  Rattach, RattachInRange, encode_rattach, decode_rattach, Tflush, TflushInRange, encode_tflush,
  decode_tflush, Rflush, encode_rflush, decode_rflush,
}

pub tversion_reads :
    (m : Tversion) → TversionInRange m → Reads (encode_tversion m) body_limit decode_tversion m
unfolding encode_tversion decode_tversion
tversion_reads m h =
    upto _ (field _ (uint32 h.msize) (field _ (string m.version) (end _))) (omega arith)

pub rversion_reads :
    (m : Rversion) → RversionInRange m → Reads (encode_rversion m) body_limit decode_rversion m
unfolding encode_rversion decode_rversion
rversion_reads m h =
    upto _ (field _ (uint32 h.msize) (field _ (string m.version) (end _))) (omega arith)

pub tauth_reads : (m : Tauth) → TauthInRange m → Reads (encode_tauth m) body_limit decode_tauth m
unfolding encode_tauth decode_tauth
tauth_reads m h =
    upto _
      (field _ (fid h.afid)
        (field _ (string m.uname) (field _ (string m.aname) (field _ (uint32 h.n_uname) (end _)))))
      (omega arith)

pub rauth_reads : (m : Rauth) → RauthInRange m → Reads (encode_rauth m) body_limit decode_rauth m
unfolding encode_rauth decode_rauth
rauth_reads m h = upto _ (field _ (qid h.aqid) (end _)) (omega arith)

pub tattach_reads :
    (m : Tattach) → TattachInRange m → Reads (encode_tattach m) body_limit decode_tattach m
unfolding encode_tattach decode_tattach
tattach_reads m h =
    upto _
      (field _ (fid h.fid) (
        field _ (fid h.afid) (
          field _ (string m.uname)
            (field _ (string m.aname) (field _ (uint32 h.n_uname) (end _))))))
      (omega arith)

pub rattach_reads :
    (m : Rattach) → RattachInRange m → Reads (encode_rattach m) body_limit decode_rattach m
unfolding encode_rattach decode_rattach
rattach_reads m h = upto _ (field _ (qid h.qid) (end _)) (omega arith)

pub tflush_reads :
    (m : Tflush) → TflushInRange m → Reads (encode_tflush m) body_limit decode_tflush m
unfolding encode_tflush decode_tflush
tflush_reads m h = upto _ (field _ (uint16 h.old_tag) (end _)) (omega arith)

pub rflush_reads : (m : Rflush) → Reads (encode_rflush m) body_limit decode_rflush m
unfolding encode_rflush decode_rflush
rflush_reads m = upto _ (end m) (omega arith)
