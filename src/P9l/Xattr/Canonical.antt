-- ===== src/P9l/Xattr/Canonical.antt =====
-- proto/p9l/messages.go: each message that the reader accepts is in range, and its writer gives the bytes read.
use ninep.Prelude.{refl}
use ninep.Proto.Laws.Recodes.{Whole, end, guarded, field, uint32, uint64, fid, string, payload}
use ninep.Proto.Laws.Writer.{check_passes, writer_laws}
use ninep.P9l.Xattr.{
  TxattrwalkInRange, encode_txattrwalk, decode_txattrwalk, RxattrwalkInRange, encode_rxattrwalk,
  decode_rxattrwalk, TxattrcreateInRange, encode_txattrcreate, decode_txattrcreate,
  encode_rxattrcreate, decode_rxattrcreate, TreaddirInRange, encode_treaddir, decode_treaddir,
  RreaddirInRange, encode_fixed_rreaddir, encode_rreaddir, decode_rreaddir, TfsyncInRange,
  encode_tfsync, decode_tfsync, encode_rfsync, decode_rfsync,
}

pub txattrwalk_recodes : Whole decode_txattrwalk encode_txattrwalk TxattrwalkInRange
unfolding encode_txattrwalk decode_txattrwalk
txattrwalk_recodes = field _ _ _ _ fid λ _ h_fid. field _ _ _ _ fid λ _ h_new_fid.
    field _ _ _ _ string λ _ _. end _ _ _ _ refl (record { fid = h_fid; new_fid = h_new_fid })

pub rxattrwalk_recodes : Whole decode_rxattrwalk encode_rxattrwalk RxattrwalkInRange
unfolding encode_rxattrwalk decode_rxattrwalk
rxattrwalk_recodes = field _ _ _ _ uint64 λ _ h_size. end _ _ _ _ refl (record { size = h_size })

pub txattrcreate_recodes : Whole decode_txattrcreate encode_txattrcreate TxattrcreateInRange
unfolding encode_txattrcreate decode_txattrcreate
txattrcreate_recodes = field _ _ _ _ fid λ _ h_fid. field _ _ _ _ string λ _ _.
    field _ _ _ _ uint64 λ _ h_attr_size. field _ _ _ _ uint32 λ _ h_flags.
      end _ _ _ _ refl (record { fid = h_fid; attr_size = h_attr_size; flags = h_flags })

pub rxattrcreate_recodes : Whole decode_rxattrcreate encode_rxattrcreate (λ _. Unit {0})
unfolding encode_rxattrcreate decode_rxattrcreate
rxattrcreate_recodes = end _ _ _ tt refl tt

pub treaddir_recodes : Whole decode_treaddir encode_treaddir TreaddirInRange
unfolding encode_treaddir decode_treaddir
treaddir_recodes = field _ _ _ _ fid λ _ h_fid. field _ _ _ _ uint64 λ _ h_offset.
    field _ _ _ _ uint32
      λ _ h_count. end _ _ _ _ refl (record { fid = h_fid; offset = h_offset; count = h_count })

pub rreaddir_recodes : Whole decode_rreaddir encode_rreaddir RreaddirInRange
unfolding encode_rreaddir encode_fixed_rreaddir decode_rreaddir
rreaddir_recodes = field _ _ _ _ uint32 λ n h_n. guarded _ _ _ _ _ _ λ few.
    field _ _ _ _ (payload n) λ s h_s.
      end _ _ _ _ (simp writer_laws (rw h_s.1 (check_passes _ _ _ few)))
        (record { payload = h_s.0 })

pub tfsync_recodes : Whole decode_tfsync encode_tfsync TfsyncInRange
unfolding encode_tfsync decode_tfsync
tfsync_recodes = field _ _ _ _ fid λ _ h_fid.
    field _ _ _ _ uint32
      λ _ h_data_sync. end _ _ _ _ refl (record { fid = h_fid; data_sync = h_data_sync })

pub rfsync_recodes : Whole decode_rfsync encode_rfsync (λ _. Unit {0})
unfolding encode_rfsync decode_rfsync
rfsync_recodes = end _ _ _ tt refl tt
