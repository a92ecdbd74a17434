-- ===== src/P9l/Attributes/RoundTrip.antt =====
-- proto/p9l/messages.go: the reader gives back each message that the writer wrote.
use ninep.Prelude.{arith}
use ninep.Proto.Laws.Reads.{Reads, body_limit, end, field, upto, uint32, uint64, fid, qid}
use ninep.P9l.Attributes.{
  Tgetattr, TgetattrInRange, encode_tgetattr, decode_tgetattr, Rgetattr, RgetattrInRange,
  encode_rgetattr, decode_rgetattr, Tsetattr, TsetattrInRange, encode_tsetattr, decode_tsetattr,
  Rsetattr, encode_rsetattr, decode_rsetattr,
}

pub tgetattr_reads :
    (m : Tgetattr) → TgetattrInRange m → Reads (encode_tgetattr m) body_limit decode_tgetattr m
unfolding encode_tgetattr decode_tgetattr
tgetattr_reads m h =
    upto _ (field _ (fid h.fid) (field _ (uint64 h.request_mask) (end _))) (omega arith)

pub rgetattr_reads :
    (m : Rgetattr) → RgetattrInRange m → Reads (encode_rgetattr m) body_limit decode_rgetattr m
unfolding encode_rgetattr decode_rgetattr
rgetattr_reads m h =
    upto _
      (field _ (uint64 h.attr.valid) (
        field _ (qid h.attr.qid) (
          field _ (uint32 h.attr.mode) (
            field _ (uint32 h.attr.uid) (
              field _ (uint32 h.attr.gid) (
                field _ (uint64 h.attr.n_link) (
                  field _ (uint64 h.attr.r_dev) (
                    field _ (uint64 h.attr.size) (
                      field _ (uint64 h.attr.blk_size) (
                        field _ (uint64 h.attr.blocks) (
                          field _ (uint64 h.attr.atime_sec) (
                            field _ (uint64 h.attr.atime_nsec) (
                              field _ (uint64 h.attr.mtime_sec) (
                                field _ (uint64 h.attr.mtime_nsec) (
                                  field _ (uint64 h.attr.ctime_sec) (
                                    field _ (uint64 h.attr.ctime_nsec) (
                                      field _ (uint64 h.attr.btime_sec) (
                                        field _ (uint64 h.attr.btime_nsec) (
                                          field _ (uint64 h.attr.gen) (
                                            field _ (uint64 h.attr.data_version)
                                              (end _)))))))))))))))))))))
      (omega arith)

pub tsetattr_reads :
    (m : Tsetattr) → TsetattrInRange m → Reads (encode_tsetattr m) body_limit decode_tsetattr m
unfolding encode_tsetattr decode_tsetattr
tsetattr_reads m h =
    upto _
      (field _ (fid h.fid) (
        field _ (uint32 h.attr.valid) (
          field _ (uint32 h.attr.mode) (
            field _ (uint32 h.attr.uid) (
              field _ (uint32 h.attr.gid) (
                field _ (uint64 h.attr.size) (
                  field _ (uint64 h.attr.atime_sec) (
                    field _ (uint64 h.attr.atime_nsec) (
                      field _ (uint64 h.attr.mtime_sec)
                        (field _ (uint64 h.attr.mtime_nsec) (end _)))))))))))
      (omega arith)

pub rsetattr_reads : (m : Rsetattr) → Reads (encode_rsetattr m) body_limit decode_rsetattr m
unfolding encode_rsetattr decode_rsetattr
rsetattr_reads m = upto _ (end m) (omega arith)
