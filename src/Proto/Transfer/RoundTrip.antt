-- ===== src/Proto/Transfer/RoundTrip.antt =====
-- proto/messages.go: the reader gives back each message that the writer wrote.
use ninep.Prelude.{◌≤◌, leb→le, arith, length}
use ninep.Proto.Base.{max_data_size}
use ninep.Proto.Laws.Reads.{
  Reads, body_limit, end, checked, guarded, field, upto, uint32, uint64, fid, payload,
}
use ninep.Proto.Laws.Writer.{writer_laws}
use ninep.Proto.Transfer.{
  Tread, TreadInRange, encode_tread, decode_tread, Rread, encode_fixed_rread, encode_rread,
  decode_rread, Twrite, TwriteInRange, encode_fixed_twrite, encode_twrite, decode_twrite, Rwrite,
  RwriteInRange, encode_rwrite, decode_rwrite,
}

pub tread_reads : (m : Tread) → TreadInRange m → Reads (encode_tread m) body_limit decode_tread m
unfolding encode_tread decode_tread
tread_reads m h =
    upto _ (field _ (fid h.fid) (field _ (uint64 h.offset) (field _ (uint32 h.count) (end _))))
      (omega arith)

pub rread_reads : (m : Rread) → Reads (encode_rread m) body_limit decode_rread m
unfolding encode_rread encode_fixed_rread decode_rread
rread_reads m = simp writer_laws (
    checked _ _ λ few.
      let n : length m.payload ≤ max_data_size = leb→le _ _ few in
      upto _
        (field _ (uint32 (omega arith))
          (guarded _ _ few (field _ (payload m.payload max_data_size n) (end _))))
        (omega arith))

pub twrite_reads :
    (m : Twrite) → TwriteInRange m → Reads (encode_twrite m) body_limit decode_twrite m
unfolding encode_twrite encode_fixed_twrite decode_twrite
twrite_reads m h = simp writer_laws (
    checked _ _ λ few.
      let n : length m.payload ≤ max_data_size = leb→le _ _ few in
      upto _
        (field _ (fid h.fid) (
          field _ (uint64 h.offset) (
            field _ (uint32 (omega arith))
              (guarded _ _ few (field _ (payload m.payload max_data_size n) (end _))))))
        (omega arith))

pub rwrite_reads :
    (m : Rwrite) → RwriteInRange m → Reads (encode_rwrite m) body_limit decode_rwrite m
unfolding encode_rwrite decode_rwrite
rwrite_reads m h = upto _ (field _ (uint32 h.count) (end _)) (omega arith)
