-- ===== src/P9l/Lock/Canonical.antt =====
-- proto/p9l/messages.go: each message that the reader accepts is in range, and its writer gives the bytes read.
use ninep.Prelude.{refl, leb→le}
use ninep.Proto.Laws.Recodes.{Whole, end, guarded, field, uint8, uint32, uint64, fid, string}
use ninep.Proto.Laws.Flags.{known_flags}
use ninep.P9l.Lock.{
  TlockInRange, encode_tlock, decode_tlock, RlockInRange, encode_rlock, decode_rlock,
  TgetlockInRange, encode_tgetlock, decode_tgetlock, RgetlockInRange, encode_rgetlock,
  decode_rgetlock,
}

pub tlock_recodes : Whole decode_tlock encode_tlock TlockInRange
unfolding encode_tlock decode_tlock
tlock_recodes = field _ _ _ _ fid λ _ h_fid. field _ _ _ _ uint8 λ lock_type _.
    guarded _ _ _ _ _ _ λ g_lock_type. field _ _ _ _ uint32 λ flags _.
      guarded _ _ _ _ _ _ λ g_flags. field _ _ _ _ uint64 λ _ h_start.
        field _ _ _ _ uint64 λ _ h_length. field _ _ _ _ uint32 λ _ h_proc_id.
          field _ _ _ _ string λ _ _. end _ _ _ _ refl (record {
            fid = h_fid;
            lock_type = leb→le _ _ g_lock_type;
            flags = known_flags flags g_flags;
            start = h_start;
            length = h_length;
            proc_id = h_proc_id;
          })

pub rlock_recodes : Whole decode_rlock encode_rlock RlockInRange
unfolding encode_rlock decode_rlock
rlock_recodes = field _ _ _ _ uint8 λ status _.
    guarded _ _ _ _ _ _ λ g_status. end _ _ _ _ refl (record { status = leb→le _ _ g_status })

pub tgetlock_recodes : Whole decode_tgetlock encode_tgetlock TgetlockInRange
unfolding encode_tgetlock decode_tgetlock
tgetlock_recodes = field _ _ _ _ fid λ _ h_fid. field _ _ _ _ uint8 λ lock_type _.
    guarded _ _ _ _ _ _ λ g_lock_type. field _ _ _ _ uint64 λ _ h_start.
      field _ _ _ _ uint64 λ _ h_length. field _ _ _ _ uint32 λ _ h_proc_id.
        field _ _ _ _ string λ _ _. end _ _ _ _ refl (record {
          fid = h_fid;
          lock_type = leb→le _ _ g_lock_type;
          start = h_start;
          length = h_length;
          proc_id = h_proc_id;
        })

pub rgetlock_recodes : Whole decode_rgetlock encode_rgetlock RgetlockInRange
unfolding encode_rgetlock decode_rgetlock
rgetlock_recodes = field _ _ _ _ uint8 λ lock_type _. guarded _ _ _ _ _ _ λ g_lock_type.
    field _ _ _ _ uint64 λ _ h_start. field _ _ _ _ uint64 λ _ h_length.
      field _ _ _ _ uint32 λ _ h_proc_id. field _ _ _ _ string λ _ _. end _ _ _ _ refl (record {
        lock_type = leb→le _ _ g_lock_type;
        start = h_start;
        length = h_length;
        proc_id = h_proc_id;
      })
