-- ===== src/P9l/Rename/RoundTrip.antt =====
-- proto/p9l/messages.go: the reader gives back each message that the writer wrote.
use ninep.Prelude.{arith}
use ninep.Proto.Laws.Reads.{Reads, body_limit, end, field, upto, uint32, fid, string}
use ninep.P9l.Rename.{
  Trename, TrenameInRange, encode_trename, decode_trename, Rrename, encode_rrename, decode_rrename,
  Treadlink, TreadlinkInRange, encode_treadlink, decode_treadlink, Rreadlink, RreadlinkInRange,
  encode_rreadlink, decode_rreadlink, Trenameat, TrenameatInRange, encode_trenameat,
  decode_trenameat, Rrenameat, encode_rrenameat, decode_rrenameat, Tunlinkat, TunlinkatInRange,
  encode_tunlinkat, decode_tunlinkat, Runlinkat, encode_runlinkat, decode_runlinkat,
}

pub trename_reads :
    (m : Trename) → TrenameInRange m → Reads (encode_trename m) body_limit decode_trename m
unfolding encode_trename decode_trename
trename_reads m h =
    upto _ (field _ (fid h.fid) (field _ (fid h.dir_fid) (field _ (string m.name) (end _))))
      (omega arith)

pub rrename_reads : (m : Rrename) → Reads (encode_rrename m) body_limit decode_rrename m
unfolding encode_rrename decode_rrename
rrename_reads m = upto _ (end m) (omega arith)

pub treadlink_reads :
    (m : Treadlink) → TreadlinkInRange m → Reads (encode_treadlink m) body_limit decode_treadlink m
unfolding encode_treadlink decode_treadlink
treadlink_reads m h = upto _ (field _ (fid h.fid) (end _)) (omega arith)

pub rreadlink_reads :
    (m : Rreadlink) → RreadlinkInRange m → Reads (encode_rreadlink m) body_limit decode_rreadlink m
unfolding encode_rreadlink decode_rreadlink
rreadlink_reads m h = upto _ (field _ (string m.target) (end _)) (omega arith)

pub trenameat_reads :
    (m : Trenameat) → TrenameatInRange m → Reads (encode_trenameat m) body_limit decode_trenameat m
unfolding encode_trenameat decode_trenameat
trenameat_reads m h =
    upto _
      (field _ (fid h.old_dir_fid) (
        field _ (string m.old_name)
          (field _ (fid h.new_dir_fid) (field _ (string m.new_name) (end _)))))
      (omega arith)

pub rrenameat_reads : (m : Rrenameat) → Reads (encode_rrenameat m) body_limit decode_rrenameat m
unfolding encode_rrenameat decode_rrenameat
rrenameat_reads m = upto _ (end m) (omega arith)

pub tunlinkat_reads :
    (m : Tunlinkat) → TunlinkatInRange m → Reads (encode_tunlinkat m) body_limit decode_tunlinkat m
unfolding encode_tunlinkat decode_tunlinkat
tunlinkat_reads m h =
    upto _ (field _ (fid h.dir_fid) (field _ (string m.name) (field _ (uint32 h.flags) (end _))))
      (omega arith)

pub runlinkat_reads : (m : Runlinkat) → Reads (encode_runlinkat m) body_limit decode_runlinkat m
unfolding encode_runlinkat decode_runlinkat
runlinkat_reads m = upto _ (end m) (omega arith)
