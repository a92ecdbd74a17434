-- ===== src/P9l/Make.antt =====
-- proto/p9l/messages.go: symlink, mknod, link and mkdir.
pub mod RoundTrip
pub mod Canonical
use ninep.Prelude.{ℕ}
use ninep.Proto.Base.{Bytes, IsU32, Result, Decoder, ◌>>◌, ◌>>=◌, done, pure}
use ninep.Proto.Types.{Qid, QidInRange}
use ninep.Proto.Encode.{write_uint32, write_fid, write_string, write_qid}
use ninep.Proto.Decode.{read_uint32, read_fid, read_string, read_qid}

pub record Tsymlink : Type 0 where
  pub dir_fid : ℕ
  pub name : Bytes
  pub target : Bytes
  pub gid : ℕ

pub record TsymlinkInRange (m : Tsymlink) : Type 0 where
  pub dir_fid : IsU32 m.dir_fid
  pub gid : IsU32 m.gid

unfoldable pub encode_tsymlink : Tsymlink → Result Bytes
encode_tsymlink m = do
  write_fid m.dir_fid
  write_string m.name
  write_string m.target
  write_uint32 m.gid
  done

unfoldable pub decode_tsymlink : Decoder Tsymlink
decode_tsymlink = do
  dir_fid ← read_fid
  name ← read_string
  target ← read_string
  gid ← read_uint32
  pure (record { dir_fid = dir_fid; name = name; target = target; gid = gid })

pub record Rsymlink : Type 0 where
  pub qid : Qid

pub record RsymlinkInRange (m : Rsymlink) : Type 0 where
  pub qid : QidInRange m.qid

unfoldable pub encode_rsymlink : Rsymlink → Result Bytes
encode_rsymlink m = do write_qid m.qid; done

unfoldable pub decode_rsymlink : Decoder Rsymlink
decode_rsymlink = do qid ← read_qid; pure (record { qid = qid })

pub record Tmknod : Type 0 where
  pub dir_fid : ℕ
  pub name : Bytes
  pub mode : ℕ
  pub major : ℕ
  pub minor : ℕ
  pub gid : ℕ

pub record TmknodInRange (m : Tmknod) : Type 0 where
  pub dir_fid : IsU32 m.dir_fid
  pub mode : IsU32 m.mode
  pub major : IsU32 m.major
  pub minor : IsU32 m.minor
  pub gid : IsU32 m.gid

unfoldable pub encode_tmknod : Tmknod → Result Bytes
encode_tmknod m = do
  write_fid m.dir_fid
  write_string m.name
  write_uint32 m.mode
  write_uint32 m.major
  write_uint32 m.minor
  write_uint32 m.gid
  done

unfoldable pub decode_tmknod : Decoder Tmknod
decode_tmknod = do
  dir_fid ← read_fid
  name ← read_string
  mode ← read_uint32
  major ← read_uint32
  minor ← read_uint32
  gid ← read_uint32
  pure (record {
    dir_fid = dir_fid;
    name = name;
    mode = mode;
    major = major;
    minor = minor;
    gid = gid;
  })

pub record Rmknod : Type 0 where
  pub qid : Qid

pub record RmknodInRange (m : Rmknod) : Type 0 where
  pub qid : QidInRange m.qid

unfoldable pub encode_rmknod : Rmknod → Result Bytes
encode_rmknod m = do write_qid m.qid; done

unfoldable pub decode_rmknod : Decoder Rmknod
decode_rmknod = do qid ← read_qid; pure (record { qid = qid })

pub record Tlink : Type 0 where
  pub dir_fid : ℕ
  pub fid : ℕ
  pub name : Bytes

pub record TlinkInRange (m : Tlink) : Type 0 where
  pub dir_fid : IsU32 m.dir_fid
  pub fid : IsU32 m.fid

unfoldable pub encode_tlink : Tlink → Result Bytes
encode_tlink m = do write_fid m.dir_fid; write_fid m.fid; write_string m.name; done

unfoldable pub decode_tlink : Decoder Tlink
decode_tlink = do
  dir_fid ← read_fid
  fid ← read_fid
  name ← read_string
  pure (record { dir_fid = dir_fid; fid = fid; name = name })

-- `Rlink` has an empty body.
abbrev pub Rlink : Type 0
Rlink = Unit {0}

unfoldable pub encode_rlink : Rlink → Result Bytes
encode_rlink m = done

unfoldable pub decode_rlink : Decoder Rlink
decode_rlink = pure tt

pub record Tmkdir : Type 0 where
  pub dir_fid : ℕ
  pub name : Bytes
  pub mode : ℕ
  pub gid : ℕ

pub record TmkdirInRange (m : Tmkdir) : Type 0 where
  pub dir_fid : IsU32 m.dir_fid
  pub mode : IsU32 m.mode
  pub gid : IsU32 m.gid

unfoldable pub encode_tmkdir : Tmkdir → Result Bytes
encode_tmkdir m = do
  write_fid m.dir_fid
  write_string m.name
  write_uint32 m.mode
  write_uint32 m.gid
  done

unfoldable pub decode_tmkdir : Decoder Tmkdir
decode_tmkdir = do
  dir_fid ← read_fid
  name ← read_string
  mode ← read_uint32
  gid ← read_uint32
  pure (record { dir_fid = dir_fid; name = name; mode = mode; gid = gid })

pub record Rmkdir : Type 0 where
  pub qid : Qid

pub record RmkdirInRange (m : Rmkdir) : Type 0 where
  pub qid : QidInRange m.qid

unfoldable pub encode_rmkdir : Rmkdir → Result Bytes
encode_rmkdir m = do write_qid m.qid; done

unfoldable pub decode_rmkdir : Decoder Rmkdir
decode_rmkdir = do qid ← read_qid; pure (record { qid = qid })
