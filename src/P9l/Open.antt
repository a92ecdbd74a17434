-- ===== src/P9l/Open.antt =====
-- proto/p9l/messages.go: the error reply, statfs, open and create.
pub mod RoundTrip
pub mod Canonical
use ninep.Prelude.{ℕ}
use ninep.Proto.Base.{Bytes, IsU32, Result, Decoder, ◌>>◌, ◌>>=◌, done, pure}
use ninep.Proto.Types.{Qid, QidInRange, FsStat, FsStatInRange}
use ninep.Proto.Encode.{write_uint32, write_uint64, write_fid, write_string, write_qid}
use ninep.Proto.Decode.{read_uint32, read_uint64, read_fid, read_string, read_qid}

pub record Rlerror : Type 0 where
  pub ecode : ℕ

pub record RlerrorInRange (m : Rlerror) : Type 0 where
  pub ecode : IsU32 m.ecode

unfoldable pub encode_rlerror : Rlerror → Result Bytes
encode_rlerror m = do write_uint32 m.ecode; done

unfoldable pub decode_rlerror : Decoder Rlerror
decode_rlerror = do ecode ← read_uint32; pure (record { ecode = ecode })

pub record Tstatfs : Type 0 where
  pub fid : ℕ

pub record TstatfsInRange (m : Tstatfs) : Type 0 where
  pub fid : IsU32 m.fid

unfoldable pub encode_tstatfs : Tstatfs → Result Bytes
encode_tstatfs m = do write_fid m.fid; done

unfoldable pub decode_tstatfs : Decoder Tstatfs
decode_tstatfs = do fid ← read_fid; pure (record { fid = fid })

pub record Rstatfs : Type 0 where
  pub stat : FsStat

pub record RstatfsInRange (m : Rstatfs) : Type 0 where
  pub stat : FsStatInRange m.stat

unfoldable pub encode_rstatfs : Rstatfs → Result Bytes
encode_rstatfs m = do
  write_uint32 m.stat.type
  write_uint32 m.stat.b_size
  write_uint64 m.stat.blocks
  write_uint64 m.stat.b_free
  write_uint64 m.stat.b_avail
  write_uint64 m.stat.files
  write_uint64 m.stat.f_free
  write_uint64 m.stat.fsid
  write_uint32 m.stat.name_len
  done

unfoldable pub decode_rstatfs : Decoder Rstatfs
decode_rstatfs = do
  type ← read_uint32
  b_size ← read_uint32
  blocks ← read_uint64
  b_free ← read_uint64
  b_avail ← read_uint64
  files ← read_uint64
  f_free ← read_uint64
  fsid ← read_uint64
  name_len ← read_uint32
  pure (record {
    stat = record {
      type = type;
      b_size = b_size;
      blocks = blocks;
      b_free = b_free;
      b_avail = b_avail;
      files = files;
      f_free = f_free;
      fsid = fsid;
      name_len = name_len;
    };
  })

pub record Tlopen : Type 0 where
  pub fid : ℕ
  pub flags : ℕ

pub record TlopenInRange (m : Tlopen) : Type 0 where
  pub fid : IsU32 m.fid
  pub flags : IsU32 m.flags

unfoldable pub encode_tlopen : Tlopen → Result Bytes
encode_tlopen m = do write_fid m.fid; write_uint32 m.flags; done

unfoldable pub decode_tlopen : Decoder Tlopen
decode_tlopen = do fid ← read_fid; flags ← read_uint32; pure (record { fid = fid; flags = flags })

pub record Rlopen : Type 0 where
  pub qid : Qid
  pub io_unit : ℕ

pub record RlopenInRange (m : Rlopen) : Type 0 where
  pub qid : QidInRange m.qid
  pub io_unit : IsU32 m.io_unit

unfoldable pub encode_rlopen : Rlopen → Result Bytes
encode_rlopen m = do write_qid m.qid; write_uint32 m.io_unit; done

unfoldable pub decode_rlopen : Decoder Rlopen
decode_rlopen = do
  qid ← read_qid
  io_unit ← read_uint32
  pure (record { qid = qid; io_unit = io_unit })

pub record Tlcreate : Type 0 where
  pub fid : ℕ
  pub name : Bytes
  pub flags : ℕ
  pub mode : ℕ
  pub gid : ℕ

pub record TlcreateInRange (m : Tlcreate) : Type 0 where
  pub fid : IsU32 m.fid
  pub flags : IsU32 m.flags
  pub mode : IsU32 m.mode
  pub gid : IsU32 m.gid

unfoldable pub encode_tlcreate : Tlcreate → Result Bytes
encode_tlcreate m = do
  write_fid m.fid
  write_string m.name
  write_uint32 m.flags
  write_uint32 m.mode
  write_uint32 m.gid
  done

unfoldable pub decode_tlcreate : Decoder Tlcreate
decode_tlcreate = do
  fid ← read_fid
  name ← read_string
  flags ← read_uint32
  mode ← read_uint32
  gid ← read_uint32
  pure (record { fid = fid; name = name; flags = flags; mode = mode; gid = gid })

pub record Rlcreate : Type 0 where
  pub qid : Qid
  pub io_unit : ℕ

pub record RlcreateInRange (m : Rlcreate) : Type 0 where
  pub qid : QidInRange m.qid
  pub io_unit : IsU32 m.io_unit

unfoldable pub encode_rlcreate : Rlcreate → Result Bytes
encode_rlcreate m = do write_qid m.qid; write_uint32 m.io_unit; done

unfoldable pub decode_rlcreate : Decoder Rlcreate
decode_rlcreate = do
  qid ← read_qid
  io_unit ← read_uint32
  pure (record { qid = qid; io_unit = io_unit })
