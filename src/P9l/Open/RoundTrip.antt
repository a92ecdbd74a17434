-- ===== src/P9l/Open/RoundTrip.antt =====
-- proto/p9l/messages.go: the reader gives back each message that the writer wrote.
use ninep.Prelude.{arith}
use ninep.Proto.Laws.Reads.{Reads, body_limit, end, field, upto, uint32, uint64, fid, string, qid}
use ninep.P9l.Open.{
  Rlerror, RlerrorInRange, encode_rlerror, decode_rlerror, Tstatfs, TstatfsInRange, encode_tstatfs,
  decode_tstatfs, Rstatfs, RstatfsInRange, encode_rstatfs, decode_rstatfs, Tlopen, TlopenInRange,
  encode_tlopen, decode_tlopen, Rlopen, RlopenInRange, encode_rlopen, decode_rlopen, Tlcreate,
  TlcreateInRange, encode_tlcreate, decode_tlcreate, Rlcreate, RlcreateInRange, encode_rlcreate,
  decode_rlcreate,
}

pub rlerror_reads :
    (m : Rlerror) → RlerrorInRange m → Reads (encode_rlerror m) body_limit decode_rlerror m
unfolding encode_rlerror decode_rlerror
rlerror_reads m h = upto _ (field _ (uint32 h.ecode) (end _)) (omega arith)

pub tstatfs_reads :
    (m : Tstatfs) → TstatfsInRange m → Reads (encode_tstatfs m) body_limit decode_tstatfs m
unfolding encode_tstatfs decode_tstatfs
tstatfs_reads m h = upto _ (field _ (fid h.fid) (end _)) (omega arith)

pub rstatfs_reads :
    (m : Rstatfs) → RstatfsInRange m → Reads (encode_rstatfs m) body_limit decode_rstatfs m
unfolding encode_rstatfs decode_rstatfs
rstatfs_reads m h =
    upto _
      (field _ (uint32 h.stat.type) (
        field _ (uint32 h.stat.b_size) (
          field _ (uint64 h.stat.blocks) (
            field _ (uint64 h.stat.b_free) (
              field _ (uint64 h.stat.b_avail) (
                field _ (uint64 h.stat.files) (
                  field _ (uint64 h.stat.f_free)
                    (field _ (uint64 h.stat.fsid) (field _ (uint32 h.stat.name_len) (end _))))))))))
      (omega arith)

pub tlopen_reads :
    (m : Tlopen) → TlopenInRange m → Reads (encode_tlopen m) body_limit decode_tlopen m
unfolding encode_tlopen decode_tlopen
tlopen_reads m h = upto _ (field _ (fid h.fid) (field _ (uint32 h.flags) (end _))) (omega arith)

pub rlopen_reads :
    (m : Rlopen) → RlopenInRange m → Reads (encode_rlopen m) body_limit decode_rlopen m
unfolding encode_rlopen decode_rlopen
rlopen_reads m h = upto _ (field _ (qid h.qid) (field _ (uint32 h.io_unit) (end _))) (omega arith)

pub tlcreate_reads :
    (m : Tlcreate) → TlcreateInRange m → Reads (encode_tlcreate m) body_limit decode_tlcreate m
unfolding encode_tlcreate decode_tlcreate
tlcreate_reads m h =
    upto _
      (field _ (fid h.fid) (
        field _ (string m.name)
          (field _ (uint32 h.flags) (field _ (uint32 h.mode) (field _ (uint32 h.gid) (end _))))))
      (omega arith)

pub rlcreate_reads :
    (m : Rlcreate) → RlcreateInRange m → Reads (encode_rlcreate m) body_limit decode_rlcreate m
unfolding encode_rlcreate decode_rlcreate
rlcreate_reads m h = upto _ (field _ (qid h.qid) (field _ (uint32 h.io_unit) (end _))) (omega arith)
