-- ===== src/Proto/Walk/Canonical.antt =====
-- proto/messages.go: each message that the reader accepts is in range, and its writer gives the bytes read.
use ninep.Prelude.{refl}
use ninep.Proto.Laws.Recodes.{Whole, end, guarded, field, uint16, fid, string, qid, repeated}
use ninep.Proto.Laws.Writer.{check_passes}
use ninep.Proto.Walk.{
  TwalkInRange, encode_twalk, decode_twalk, RwalkInRange, encode_rwalk, decode_rwalk, TclunkInRange,
  encode_tclunk, decode_tclunk, encode_rclunk, decode_rclunk, TremoveInRange, encode_tremove,
  decode_tremove, encode_rremove, decode_rremove,
}

pub twalk_recodes : Whole decode_twalk encode_twalk TwalkInRange
unfolding encode_twalk decode_twalk
twalk_recodes = field _ _ _ _ fid λ _ h_fid. field _ _ _ _ fid λ _ h_new_fid.
    field _ _ _ _ uint16 λ n h_n. guarded _ _ _ _ _ _ λ few.
      field _ _ _ _ (repeated n _ _ _ string) λ names h_names.
        end _ _ _ _ (rw h_names.1 (check_passes _ _ _ few))
          (record { fid = h_fid; new_fid = h_new_fid })

pub rwalk_recodes : Whole decode_rwalk encode_rwalk RwalkInRange
unfolding encode_rwalk decode_rwalk
rwalk_recodes = field _ _ _ _ uint16 λ n h_n. guarded _ _ _ _ _ _ λ few.
    field _ _ _ _ (repeated n _ _ _ qid)
      λ qids h_qids. end _ _ _ _ (rw h_qids.1 (check_passes _ _ _ few)) (record { qids = h_qids.0 })

pub tclunk_recodes : Whole decode_tclunk encode_tclunk TclunkInRange
unfolding encode_tclunk decode_tclunk
tclunk_recodes = field _ _ _ _ fid λ _ h_fid. end _ _ _ _ refl (record { fid = h_fid })

pub rclunk_recodes : Whole decode_rclunk encode_rclunk (λ _. Unit {0})
unfolding encode_rclunk decode_rclunk
rclunk_recodes = end _ _ _ tt refl tt

pub tremove_recodes : Whole decode_tremove encode_tremove TremoveInRange
unfolding encode_tremove decode_tremove
tremove_recodes = field _ _ _ _ fid λ _ h_fid. end _ _ _ _ refl (record { fid = h_fid })

pub rremove_recodes : Whole decode_rremove encode_rremove (λ _. Unit {0})
unfolding encode_rremove decode_rremove
rremove_recodes = end _ _ _ tt refl tt
