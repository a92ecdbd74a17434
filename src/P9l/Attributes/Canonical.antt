-- ===== src/P9l/Attributes/Canonical.antt =====
-- proto/p9l/messages.go: each message that the reader accepts is in range, and its writer gives the bytes read.
use ninep.Prelude.{refl}
use ninep.Proto.Laws.Recodes.{Whole, end, field, uint32, uint64, fid, qid}
use ninep.P9l.Attributes.{
  TgetattrInRange, encode_tgetattr, decode_tgetattr, RgetattrInRange, encode_rgetattr,
  decode_rgetattr, TsetattrInRange, encode_tsetattr, decode_tsetattr, encode_rsetattr,
  decode_rsetattr,
}

pub tgetattr_recodes : Whole decode_tgetattr encode_tgetattr TgetattrInRange
unfolding encode_tgetattr decode_tgetattr
tgetattr_recodes = field _ _ _ _ fid λ _ h_fid.
    field _ _ _ _ uint64
      λ _ h_request_mask. end _ _ _ _ refl (record { fid = h_fid; request_mask = h_request_mask })

pub rgetattr_recodes : Whole decode_rgetattr encode_rgetattr RgetattrInRange
unfolding encode_rgetattr decode_rgetattr
rgetattr_recodes = field _ _ _ _ uint64 λ _ h_valid. field _ _ _ _ qid λ _ h_qid.
    field _ _ _ _ uint32 λ _ h_mode. field _ _ _ _ uint32 λ _ h_uid. field _ _ _ _ uint32 λ _ h_gid.
      field _ _ _ _ uint64 λ _ h_n_link. field _ _ _ _ uint64 λ _ h_r_dev.
        field _ _ _ _ uint64 λ _ h_size. field _ _ _ _ uint64 λ _ h_blk_size.
          field _ _ _ _ uint64 λ _ h_blocks. field _ _ _ _ uint64 λ _ h_atime_sec.
            field _ _ _ _ uint64 λ _ h_atime_nsec. field _ _ _ _ uint64 λ _ h_mtime_sec.
              field _ _ _ _ uint64 λ _ h_mtime_nsec. field _ _ _ _ uint64 λ _ h_ctime_sec.
                field _ _ _ _ uint64 λ _ h_ctime_nsec. field _ _ _ _ uint64 λ _ h_btime_sec.
                  field _ _ _ _ uint64 λ _ h_btime_nsec. field _ _ _ _ uint64 λ _ h_gen.
                    field _ _ _ _ uint64 λ _ h_data_version. end _ _ _ _ refl (record {
                      attr = record {
                        valid = h_valid;
                        qid = h_qid;
                        mode = h_mode;
                        uid = h_uid;
                        gid = h_gid;
                        n_link = h_n_link;
                        r_dev = h_r_dev;
                        size = h_size;
                        blk_size = h_blk_size;
                        blocks = h_blocks;
                        atime_sec = h_atime_sec;
                        atime_nsec = h_atime_nsec;
                        mtime_sec = h_mtime_sec;
                        mtime_nsec = h_mtime_nsec;
                        ctime_sec = h_ctime_sec;
                        ctime_nsec = h_ctime_nsec;
                        btime_sec = h_btime_sec;
                        btime_nsec = h_btime_nsec;
                        gen = h_gen;
                        data_version = h_data_version;
                      };
                    })

pub tsetattr_recodes : Whole decode_tsetattr encode_tsetattr TsetattrInRange
unfolding encode_tsetattr decode_tsetattr
tsetattr_recodes = field _ _ _ _ fid λ _ h_fid. field _ _ _ _ uint32 λ _ h_valid.
    field _ _ _ _ uint32 λ _ h_mode. field _ _ _ _ uint32 λ _ h_uid. field _ _ _ _ uint32 λ _ h_gid.
      field _ _ _ _ uint64 λ _ h_size. field _ _ _ _ uint64 λ _ h_atime_sec.
        field _ _ _ _ uint64 λ _ h_atime_nsec. field _ _ _ _ uint64 λ _ h_mtime_sec.
          field _ _ _ _ uint64 λ _ h_mtime_nsec. end _ _ _ _ refl (record {
            fid = h_fid;
            attr = record {
              valid = h_valid;
              mode = h_mode;
              uid = h_uid;
              gid = h_gid;
              size = h_size;
              atime_sec = h_atime_sec;
              atime_nsec = h_atime_nsec;
              mtime_sec = h_mtime_sec;
              mtime_nsec = h_mtime_nsec;
            };
          })

pub rsetattr_recodes : Whole decode_rsetattr encode_rsetattr (λ _. Unit {0})
unfolding encode_rsetattr decode_rsetattr
rsetattr_recodes = end _ _ _ tt refl tt
