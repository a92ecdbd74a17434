-- ===== src/P9l/Xattr/RoundTrip.antt =====
-- proto/p9l/messages.go: the reader gives back each message that the writer wrote.
use ninep.Prelude.{◌≤◌, leb→le, arith, length}
use ninep.Proto.Base.{max_data_size}
use ninep.Proto.Laws.Reads.{
  Reads, body_limit, end, checked, guarded, field, upto, uint32, uint64, fid, string, payload,
}
use ninep.Proto.Laws.Writer.{writer_laws}
use ninep.P9l.Xattr.{
  Txattrwalk, TxattrwalkInRange, encode_txattrwalk, decode_txattrwalk, Rxattrwalk,
  RxattrwalkInRange, encode_rxattrwalk, decode_rxattrwalk, Txattrcreate, TxattrcreateInRange,
  encode_txattrcreate, decode_txattrcreate, Rxattrcreate, encode_rxattrcreate, decode_rxattrcreate,
  Treaddir, TreaddirInRange, encode_treaddir, decode_treaddir, Rreaddir, encode_fixed_rreaddir,
  encode_rreaddir, decode_rreaddir, Tfsync, TfsyncInRange, encode_tfsync, decode_tfsync, Rfsync,
  encode_rfsync, decode_rfsync,
}

pub txattrwalk_reads :
    (m : Txattrwalk)
    → TxattrwalkInRange m
    → Reads (encode_txattrwalk m) body_limit decode_txattrwalk m
unfolding encode_txattrwalk decode_txattrwalk
txattrwalk_reads m h =
    upto _ (field _ (fid h.fid) (field _ (fid h.new_fid) (field _ (string m.name) (end _))))
      (omega arith)

pub rxattrwalk_reads :
    (m : Rxattrwalk)
    → RxattrwalkInRange m
    → Reads (encode_rxattrwalk m) body_limit decode_rxattrwalk m
unfolding encode_rxattrwalk decode_rxattrwalk
rxattrwalk_reads m h = upto _ (field _ (uint64 h.size) (end _)) (omega arith)

pub txattrcreate_reads :
    (m : Txattrcreate)
    → TxattrcreateInRange m
    → Reads (encode_txattrcreate m) body_limit decode_txattrcreate m
unfolding encode_txattrcreate decode_txattrcreate
txattrcreate_reads m h =
    upto _
      (field _ (fid h.fid)
        (field _ (string m.name) (field _ (uint64 h.attr_size) (field _ (uint32 h.flags) (end _)))))
      (omega arith)

pub rxattrcreate_reads :
    (m : Rxattrcreate) → Reads (encode_rxattrcreate m) body_limit decode_rxattrcreate m
unfolding encode_rxattrcreate decode_rxattrcreate
rxattrcreate_reads m = upto _ (end m) (omega arith)

pub treaddir_reads :
    (m : Treaddir) → TreaddirInRange m → Reads (encode_treaddir m) body_limit decode_treaddir m
unfolding encode_treaddir decode_treaddir
treaddir_reads m h =
    upto _ (field _ (fid h.fid) (field _ (uint64 h.offset) (field _ (uint32 h.count) (end _))))
      (omega arith)

pub rreaddir_reads : (m : Rreaddir) → Reads (encode_rreaddir m) body_limit decode_rreaddir m
unfolding encode_rreaddir encode_fixed_rreaddir decode_rreaddir
rreaddir_reads m = simp writer_laws (
    checked _ _ λ few.
      let n : length m.payload ≤ max_data_size = leb→le _ _ few in
      upto _
        (field _ (uint32 (omega arith))
          (guarded _ _ few (field _ (payload m.payload max_data_size n) (end _))))
        (omega arith))

pub tfsync_reads :
    (m : Tfsync) → TfsyncInRange m → Reads (encode_tfsync m) body_limit decode_tfsync m
unfolding encode_tfsync decode_tfsync
tfsync_reads m h = upto _ (field _ (fid h.fid) (field _ (uint32 h.data_sync) (end _))) (omega arith)

pub rfsync_reads : (m : Rfsync) → Reads (encode_rfsync m) body_limit decode_rfsync m
unfolding encode_rfsync decode_rfsync
rfsync_reads m = upto _ (end m) (omega arith)
