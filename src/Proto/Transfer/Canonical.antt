-- ===== src/Proto/Transfer/Canonical.antt =====
-- proto/messages.go: each message that the reader accepts is in range, and its writer gives the bytes read.
use ninep.Prelude.{refl}
use ninep.Proto.Laws.Recodes.{Whole, end, guarded, field, uint32, uint64, fid, payload}
use ninep.Proto.Laws.Writer.{check_passes, writer_laws}
use ninep.Proto.Transfer.{
  TreadInRange, encode_tread, decode_tread, RreadInRange, encode_fixed_rread, encode_rread,
  decode_rread, TwriteInRange, encode_fixed_twrite, encode_twrite, decode_twrite, RwriteInRange,
  encode_rwrite, decode_rwrite,
}

pub tread_recodes : Whole decode_tread encode_tread TreadInRange
unfolding encode_tread decode_tread
tread_recodes = field _ _ _ _ fid λ _ h_fid. field _ _ _ _ uint64 λ _ h_offset.
    field _ _ _ _ uint32
      λ _ h_count. end _ _ _ _ refl (record { fid = h_fid; offset = h_offset; count = h_count })

pub rread_recodes : Whole decode_rread encode_rread RreadInRange
unfolding encode_rread encode_fixed_rread decode_rread
rread_recodes = field _ _ _ _ uint32 λ n h_n. guarded _ _ _ _ _ _ λ few.
    field _ _ _ _ (payload n) λ s h_s.
      end _ _ _ _ (simp writer_laws (rw h_s.1 (check_passes _ _ _ few)))
        (record { payload = h_s.0 })

pub twrite_recodes : Whole decode_twrite encode_twrite TwriteInRange
unfolding encode_twrite encode_fixed_twrite decode_twrite
twrite_recodes = field _ _ _ _ fid λ _ h_fid. field _ _ _ _ uint64 λ _ h_offset.
    field _ _ _ _ uint32 λ n h_n. guarded _ _ _ _ _ _ λ few. field _ _ _ _ (payload n) λ s h_s.
      end _ _ _ _ (simp writer_laws (rw h_s.1 (check_passes _ _ _ few)))
        (record { fid = h_fid; offset = h_offset; payload = h_s.0 })

pub rwrite_recodes : Whole decode_rwrite encode_rwrite RwriteInRange
unfolding encode_rwrite decode_rwrite
rwrite_recodes = field _ _ _ _ uint32 λ _ h_count. end _ _ _ _ refl (record { count = h_count })
