-- ===== src/P9l/Make/Canonical.antt =====
-- proto/p9l/messages.go: each message that the reader accepts is in range, and its writer gives the bytes read.
use ninep.Prelude.{refl}
use ninep.Proto.Laws.Recodes.{Whole, end, field, uint32, fid, string, qid}
use ninep.P9l.Make.{
  TsymlinkInRange, encode_tsymlink, decode_tsymlink, RsymlinkInRange, encode_rsymlink,
  decode_rsymlink, TmknodInRange, encode_tmknod, decode_tmknod, RmknodInRange, encode_rmknod,
  decode_rmknod, TlinkInRange, encode_tlink, decode_tlink, encode_rlink, decode_rlink,
  TmkdirInRange, encode_tmkdir, decode_tmkdir, RmkdirInRange, encode_rmkdir, decode_rmkdir,
}

pub tsymlink_recodes : Whole decode_tsymlink encode_tsymlink TsymlinkInRange
unfolding encode_tsymlink decode_tsymlink
tsymlink_recodes = field _ _ _ _ fid λ _ h_dir_fid. field _ _ _ _ string λ _ _.
    field _ _ _ _ string λ _ _.
      field _ _ _ _ uint32 λ _ h_gid. end _ _ _ _ refl (record { dir_fid = h_dir_fid; gid = h_gid })

pub rsymlink_recodes : Whole decode_rsymlink encode_rsymlink RsymlinkInRange
unfolding encode_rsymlink decode_rsymlink
rsymlink_recodes = field _ _ _ _ qid λ _ h_qid. end _ _ _ _ refl (record { qid = h_qid })

pub tmknod_recodes : Whole decode_tmknod encode_tmknod TmknodInRange
unfolding encode_tmknod decode_tmknod
tmknod_recodes = field _ _ _ _ fid λ _ h_dir_fid. field _ _ _ _ string λ _ _.
    field _ _ _ _ uint32 λ _ h_mode. field _ _ _ _ uint32 λ _ h_major.
      field _ _ _ _ uint32 λ _ h_minor. field _ _ _ _ uint32 λ _ h_gid. end _ _ _ _ refl (record {
        dir_fid = h_dir_fid;
        mode = h_mode;
        major = h_major;
        minor = h_minor;
        gid = h_gid;
      })

pub rmknod_recodes : Whole decode_rmknod encode_rmknod RmknodInRange
unfolding encode_rmknod decode_rmknod
rmknod_recodes = field _ _ _ _ qid λ _ h_qid. end _ _ _ _ refl (record { qid = h_qid })

pub tlink_recodes : Whole decode_tlink encode_tlink TlinkInRange
unfolding encode_tlink decode_tlink
tlink_recodes = field _ _ _ _ fid λ _ h_dir_fid. field _ _ _ _ fid λ _ h_fid.
    field _ _ _ _ string λ _ _. end _ _ _ _ refl (record { dir_fid = h_dir_fid; fid = h_fid })

pub rlink_recodes : Whole decode_rlink encode_rlink (λ _. Unit {0})
unfolding encode_rlink decode_rlink
rlink_recodes = end _ _ _ tt refl tt

pub tmkdir_recodes : Whole decode_tmkdir encode_tmkdir TmkdirInRange
unfolding encode_tmkdir decode_tmkdir
tmkdir_recodes = field _ _ _ _ fid λ _ h_dir_fid. field _ _ _ _ string λ _ _.
    field _ _ _ _ uint32 λ _ h_mode.
      field _ _ _ _ uint32
        λ _ h_gid. end _ _ _ _ refl (record { dir_fid = h_dir_fid; mode = h_mode; gid = h_gid })

pub rmkdir_recodes : Whole decode_rmkdir encode_rmkdir RmkdirInRange
unfolding encode_rmkdir decode_rmkdir
rmkdir_recodes = field _ _ _ _ qid λ _ h_qid. end _ _ _ _ refl (record { qid = h_qid })
