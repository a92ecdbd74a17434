-- ===== src/P9l/Open/Canonical.antt =====
-- proto/p9l/messages.go: each message that the reader accepts is in range, and its writer gives the bytes read.
use ninep.Prelude.{refl}
use ninep.Proto.Laws.Recodes.{Whole, end, field, uint32, uint64, fid, string, qid}
use ninep.P9l.Open.{
  RlerrorInRange, encode_rlerror, decode_rlerror, TstatfsInRange, encode_tstatfs, decode_tstatfs,
  RstatfsInRange, encode_rstatfs, decode_rstatfs, TlopenInRange, encode_tlopen, decode_tlopen,
  RlopenInRange, encode_rlopen, decode_rlopen, TlcreateInRange, encode_tlcreate, decode_tlcreate,
  RlcreateInRange, encode_rlcreate, decode_rlcreate,
}

pub rlerror_recodes : Whole decode_rlerror encode_rlerror RlerrorInRange
unfolding encode_rlerror decode_rlerror
rlerror_recodes = field _ _ _ _ uint32 λ _ h_ecode. end _ _ _ _ refl (record { ecode = h_ecode })

pub tstatfs_recodes : Whole decode_tstatfs encode_tstatfs TstatfsInRange
unfolding encode_tstatfs decode_tstatfs
tstatfs_recodes = field _ _ _ _ fid λ _ h_fid. end _ _ _ _ refl (record { fid = h_fid })

pub rstatfs_recodes : Whole decode_rstatfs encode_rstatfs RstatfsInRange
unfolding encode_rstatfs decode_rstatfs
rstatfs_recodes = field _ _ _ _ uint32 λ _ h_type. field _ _ _ _ uint32 λ _ h_b_size.
    field _ _ _ _ uint64 λ _ h_blocks. field _ _ _ _ uint64 λ _ h_b_free.
      field _ _ _ _ uint64 λ _ h_b_avail. field _ _ _ _ uint64 λ _ h_files.
        field _ _ _ _ uint64 λ _ h_f_free. field _ _ _ _ uint64 λ _ h_fsid.
          field _ _ _ _ uint32 λ _ h_name_len. end _ _ _ _ refl (record {
            stat = record {
              type = h_type;
              b_size = h_b_size;
              blocks = h_blocks;
              b_free = h_b_free;
              b_avail = h_b_avail;
              files = h_files;
              f_free = h_f_free;
              fsid = h_fsid;
              name_len = h_name_len;
            };
          })

pub tlopen_recodes : Whole decode_tlopen encode_tlopen TlopenInRange
unfolding encode_tlopen decode_tlopen
tlopen_recodes = field _ _ _ _ fid λ _ h_fid.
    field _ _ _ _ uint32 λ _ h_flags. end _ _ _ _ refl (record { fid = h_fid; flags = h_flags })

pub rlopen_recodes : Whole decode_rlopen encode_rlopen RlopenInRange
unfolding encode_rlopen decode_rlopen
rlopen_recodes = field _ _ _ _ qid λ _ h_qid.
    field _ _ _ _ uint32
      λ _ h_io_unit. end _ _ _ _ refl (record { qid = h_qid; io_unit = h_io_unit })

pub tlcreate_recodes : Whole decode_tlcreate encode_tlcreate TlcreateInRange
unfolding encode_tlcreate decode_tlcreate
tlcreate_recodes = field _ _ _ _ fid λ _ h_fid. field _ _ _ _ string λ _ _.
    field _ _ _ _ uint32 λ _ h_flags. field _ _ _ _ uint32 λ _ h_mode.
      field _ _ _ _ uint32 λ _ h_gid.
        end _ _ _ _ refl (record { fid = h_fid; flags = h_flags; mode = h_mode; gid = h_gid })

pub rlcreate_recodes : Whole decode_rlcreate encode_rlcreate RlcreateInRange
unfolding encode_rlcreate decode_rlcreate
rlcreate_recodes = field _ _ _ _ qid λ _ h_qid.
    field _ _ _ _ uint32
      λ _ h_io_unit. end _ _ _ _ refl (record { qid = h_qid; io_unit = h_io_unit })
