-- ===== src/P9l/Rename/Canonical.antt =====
-- proto/p9l/messages.go: each message that the reader accepts is in range, and its writer gives the bytes read.
use ninep.Prelude.{refl}
use ninep.Proto.Laws.Recodes.{Whole, end, field, uint32, fid, string}
use ninep.P9l.Rename.{
  TrenameInRange, encode_trename, decode_trename, encode_rrename, decode_rrename, TreadlinkInRange,
  encode_treadlink, decode_treadlink, RreadlinkInRange, encode_rreadlink, decode_rreadlink,
  TrenameatInRange, encode_trenameat, decode_trenameat, encode_rrenameat, decode_rrenameat,
  TunlinkatInRange, encode_tunlinkat, decode_tunlinkat, encode_runlinkat, decode_runlinkat,
}

pub trename_recodes : Whole decode_trename encode_trename TrenameInRange
unfolding encode_trename decode_trename
trename_recodes = field _ _ _ _ fid λ _ h_fid. field _ _ _ _ fid λ _ h_dir_fid.
    field _ _ _ _ string λ _ _. end _ _ _ _ refl (record { fid = h_fid; dir_fid = h_dir_fid })

pub rrename_recodes : Whole decode_rrename encode_rrename (λ _. Unit {0})
unfolding encode_rrename decode_rrename
rrename_recodes = end _ _ _ tt refl tt

pub treadlink_recodes : Whole decode_treadlink encode_treadlink TreadlinkInRange
unfolding encode_treadlink decode_treadlink
treadlink_recodes = field _ _ _ _ fid λ _ h_fid. end _ _ _ _ refl (record { fid = h_fid })

pub rreadlink_recodes : Whole decode_rreadlink encode_rreadlink RreadlinkInRange
unfolding encode_rreadlink decode_rreadlink
rreadlink_recodes = field _ _ _ _ string λ _ _. end _ _ _ _ refl tt

pub trenameat_recodes : Whole decode_trenameat encode_trenameat TrenameatInRange
unfolding encode_trenameat decode_trenameat
trenameat_recodes = field _ _ _ _ fid λ _ h_old_dir_fid. field _ _ _ _ string λ _ _.
    field _ _ _ _ fid λ _ h_new_dir_fid.
      field _ _ _ _ string λ _ _.
        end _ _ _ _ refl (record { old_dir_fid = h_old_dir_fid; new_dir_fid = h_new_dir_fid })

pub rrenameat_recodes : Whole decode_rrenameat encode_rrenameat (λ _. Unit {0})
unfolding encode_rrenameat decode_rrenameat
rrenameat_recodes = end _ _ _ tt refl tt

pub tunlinkat_recodes : Whole decode_tunlinkat encode_tunlinkat TunlinkatInRange
unfolding encode_tunlinkat decode_tunlinkat
tunlinkat_recodes = field _ _ _ _ fid λ _ h_dir_fid. field _ _ _ _ string λ _ _.
    field _ _ _ _ uint32
      λ _ h_flags. end _ _ _ _ refl (record { dir_fid = h_dir_fid; flags = h_flags })

pub runlinkat_recodes : Whole decode_runlinkat encode_runlinkat (λ _. Unit {0})
unfolding encode_runlinkat decode_runlinkat
runlinkat_recodes = end _ _ _ tt refl tt
