-- ===== src/P9l/Lock/RoundTrip.antt =====
-- proto/p9l/messages.go: the reader gives back each message that the writer wrote.
use ninep.Prelude.{le→leb, arith}
use ninep.Proto.Laws.Reads.{
  Reads, body_limit, end, guarded, field, upto, uint8, uint32, uint64, fid, string,
}
use ninep.Proto.Laws.Flags.{no_unknown_flags}
use ninep.P9l.Lock.{
  Tlock, TlockInRange, encode_tlock, decode_tlock, Rlock, RlockInRange, encode_rlock, decode_rlock,
  Tgetlock, TgetlockInRange, encode_tgetlock, decode_tgetlock, Rgetlock, RgetlockInRange,
  encode_rgetlock, decode_rgetlock,
}

pub tlock_reads : (m : Tlock) → TlockInRange m → Reads (encode_tlock m) body_limit decode_tlock m
unfolding encode_tlock decode_tlock
tlock_reads m h =
    upto _
      (field _ (fid h.fid) (
        field _ (uint8 (omega arith)) (
          guarded _ _ (le→leb _ _ h.lock_type) (
            field _ (uint32 (omega arith)) (
              guarded _ _ (no_unknown_flags m.flags h.flags) (
                field _ (uint64 h.start) (
                  field _ (uint64 h.length)
                    (field _ (uint32 h.proc_id) (field _ (string m.client_id) (end _))))))))))
      (omega arith)

pub rlock_reads : (m : Rlock) → RlockInRange m → Reads (encode_rlock m) body_limit decode_rlock m
unfolding encode_rlock decode_rlock
rlock_reads m h =
    upto _ (field _ (uint8 (omega arith)) (guarded _ _ (le→leb _ _ h.status) (end _))) (omega arith)

pub tgetlock_reads :
    (m : Tgetlock) → TgetlockInRange m → Reads (encode_tgetlock m) body_limit decode_tgetlock m
unfolding encode_tgetlock decode_tgetlock
tgetlock_reads m h =
    upto _
      (field _ (fid h.fid) (
        field _ (uint8 (omega arith)) (
          guarded _ _ (le→leb _ _ h.lock_type) (
            field _ (uint64 h.start) (
              field _ (uint64 h.length)
                (field _ (uint32 h.proc_id) (field _ (string m.client_id) (end _))))))))
      (omega arith)

pub rgetlock_reads :
    (m : Rgetlock) → RgetlockInRange m → Reads (encode_rgetlock m) body_limit decode_rgetlock m
unfolding encode_rgetlock decode_rgetlock
rgetlock_reads m h =
    upto _
      (field _ (uint8 (omega arith)) (
        guarded _ _ (le→leb _ _ h.lock_type) (
          field _ (uint64 h.start) (
            field _ (uint64 h.length)
              (field _ (uint32 h.proc_id) (field _ (string m.client_id) (end _)))))))
      (omega arith)
