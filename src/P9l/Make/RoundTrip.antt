-- ===== src/P9l/Make/RoundTrip.antt =====
-- proto/p9l/messages.go: the reader gives back each message that the writer wrote.
use ninep.Prelude.{arith}
use ninep.Proto.Laws.Reads.{Reads, body_limit, end, field, upto, uint32, fid, string, qid}
use ninep.P9l.Make.{
  Tsymlink, TsymlinkInRange, encode_tsymlink, decode_tsymlink, Rsymlink, RsymlinkInRange,
  encode_rsymlink, decode_rsymlink, Tmknod, TmknodInRange, encode_tmknod, decode_tmknod, Rmknod,
  RmknodInRange, encode_rmknod, decode_rmknod, Tlink, TlinkInRange, encode_tlink, decode_tlink,
  Rlink, encode_rlink, decode_rlink, Tmkdir, TmkdirInRange, encode_tmkdir, decode_tmkdir, Rmkdir,
  RmkdirInRange, encode_rmkdir, decode_rmkdir,
}

pub tsymlink_reads :
    (m : Tsymlink) → TsymlinkInRange m → Reads (encode_tsymlink m) body_limit decode_tsymlink m
unfolding encode_tsymlink decode_tsymlink
tsymlink_reads m h =
    upto _
      (field _ (fid h.dir_fid)
        (field _ (string m.name) (field _ (string m.target) (field _ (uint32 h.gid) (end _)))))
      (omega arith)

pub rsymlink_reads :
    (m : Rsymlink) → RsymlinkInRange m → Reads (encode_rsymlink m) body_limit decode_rsymlink m
unfolding encode_rsymlink decode_rsymlink
rsymlink_reads m h = upto _ (field _ (qid h.qid) (end _)) (omega arith)

pub tmknod_reads :
    (m : Tmknod) → TmknodInRange m → Reads (encode_tmknod m) body_limit decode_tmknod m
unfolding encode_tmknod decode_tmknod
tmknod_reads m h =
    upto _
      (field _ (fid h.dir_fid) (
        field _ (string m.name) (
          field _ (uint32 h.mode) (
            field _ (uint32 h.major) (field _ (uint32 h.minor) (field _ (uint32 h.gid) (end _)))))))
      (omega arith)

pub rmknod_reads :
    (m : Rmknod) → RmknodInRange m → Reads (encode_rmknod m) body_limit decode_rmknod m
unfolding encode_rmknod decode_rmknod
rmknod_reads m h = upto _ (field _ (qid h.qid) (end _)) (omega arith)

pub tlink_reads : (m : Tlink) → TlinkInRange m → Reads (encode_tlink m) body_limit decode_tlink m
unfolding encode_tlink decode_tlink
tlink_reads m h =
    upto _ (field _ (fid h.dir_fid) (field _ (fid h.fid) (field _ (string m.name) (end _))))
      (omega arith)

pub rlink_reads : (m : Rlink) → Reads (encode_rlink m) body_limit decode_rlink m
unfolding encode_rlink decode_rlink
rlink_reads m = upto _ (end m) (omega arith)

pub tmkdir_reads :
    (m : Tmkdir) → TmkdirInRange m → Reads (encode_tmkdir m) body_limit decode_tmkdir m
unfolding encode_tmkdir decode_tmkdir
tmkdir_reads m h =
    upto _
      (field _ (fid h.dir_fid)
        (field _ (string m.name) (field _ (uint32 h.mode) (field _ (uint32 h.gid) (end _)))))
      (omega arith)

pub rmkdir_reads :
    (m : Rmkdir) → RmkdirInRange m → Reads (encode_rmkdir m) body_limit decode_rmkdir m
unfolding encode_rmkdir decode_rmkdir
rmkdir_reads m h = upto _ (field _ (qid h.qid) (end _)) (omega arith)
