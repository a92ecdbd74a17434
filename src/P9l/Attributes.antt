-- ===== src/P9l/Attributes.antt =====
-- proto/p9l/messages.go: getattr and setattr.
pub mod RoundTrip
pub mod Canonical
use ninep.Prelude.{ℕ}
use ninep.Proto.Base.{Bytes, IsU32, IsU64, Result, Decoder, ◌>>◌, ◌>>=◌, done, pure}
use ninep.Proto.Types.{Attr, AttrInRange, SetAttr, SetAttrInRange}
use ninep.Proto.Encode.{write_uint32, write_uint64, write_fid, write_qid}
use ninep.Proto.Decode.{read_uint32, read_uint64, read_fid, read_qid}

pub record Tgetattr : Type 0 where
  pub fid : ℕ
  pub request_mask : ℕ

pub record TgetattrInRange (m : Tgetattr) : Type 0 where
  pub fid : IsU32 m.fid
  pub request_mask : IsU64 m.request_mask

unfoldable pub encode_tgetattr : Tgetattr → Result Bytes
encode_tgetattr m = do write_fid m.fid; write_uint64 m.request_mask; done

unfoldable pub decode_tgetattr : Decoder Tgetattr
decode_tgetattr = do
  fid ← read_fid
  request_mask ← read_uint64
  pure (record { fid = fid; request_mask = request_mask })

pub record Rgetattr : Type 0 where
  pub attr : Attr

pub record RgetattrInRange (m : Rgetattr) : Type 0 where
  pub attr : AttrInRange m.attr

unfoldable pub encode_rgetattr : Rgetattr → Result Bytes
encode_rgetattr m = do
  write_uint64 m.attr.valid
  write_qid m.attr.qid
  write_uint32 m.attr.mode
  write_uint32 m.attr.uid
  write_uint32 m.attr.gid
  write_uint64 m.attr.n_link
  write_uint64 m.attr.r_dev
  write_uint64 m.attr.size
  write_uint64 m.attr.blk_size
  write_uint64 m.attr.blocks
  write_uint64 m.attr.atime_sec
  write_uint64 m.attr.atime_nsec
  write_uint64 m.attr.mtime_sec
  write_uint64 m.attr.mtime_nsec
  write_uint64 m.attr.ctime_sec
  write_uint64 m.attr.ctime_nsec
  write_uint64 m.attr.btime_sec
  write_uint64 m.attr.btime_nsec
  write_uint64 m.attr.gen
  write_uint64 m.attr.data_version
  done

unfoldable pub decode_rgetattr : Decoder Rgetattr
decode_rgetattr = do
  valid ← read_uint64
  qid ← read_qid
  mode ← read_uint32
  uid ← read_uint32
  gid ← read_uint32
  n_link ← read_uint64
  r_dev ← read_uint64
  size ← read_uint64
  blk_size ← read_uint64
  blocks ← read_uint64
  atime_sec ← read_uint64
  atime_nsec ← read_uint64
  mtime_sec ← read_uint64
  mtime_nsec ← read_uint64
  ctime_sec ← read_uint64
  ctime_nsec ← read_uint64
  btime_sec ← read_uint64
  btime_nsec ← read_uint64
  gen ← read_uint64
  data_version ← read_uint64
  pure (record {
    attr = record {
      valid = valid;
      qid = qid;
      mode = mode;
      uid = uid;
      gid = gid;
      n_link = n_link;
      r_dev = r_dev;
      size = size;
      blk_size = blk_size;
      blocks = blocks;
      atime_sec = atime_sec;
      atime_nsec = atime_nsec;
      mtime_sec = mtime_sec;
      mtime_nsec = mtime_nsec;
      ctime_sec = ctime_sec;
      ctime_nsec = ctime_nsec;
      btime_sec = btime_sec;
      btime_nsec = btime_nsec;
      gen = gen;
      data_version = data_version;
    };
  })

pub record Tsetattr : Type 0 where
  pub fid : ℕ
  pub attr : SetAttr

pub record TsetattrInRange (m : Tsetattr) : Type 0 where
  pub fid : IsU32 m.fid
  pub attr : SetAttrInRange m.attr

unfoldable pub encode_tsetattr : Tsetattr → Result Bytes
encode_tsetattr m = do
  write_fid m.fid
  write_uint32 m.attr.valid
  write_uint32 m.attr.mode
  write_uint32 m.attr.uid
  write_uint32 m.attr.gid
  write_uint64 m.attr.size
  write_uint64 m.attr.atime_sec
  write_uint64 m.attr.atime_nsec
  write_uint64 m.attr.mtime_sec
  write_uint64 m.attr.mtime_nsec
  done

unfoldable pub decode_tsetattr : Decoder Tsetattr
decode_tsetattr = do
  fid ← read_fid
  valid ← read_uint32
  mode ← read_uint32
  uid ← read_uint32
  gid ← read_uint32
  size ← read_uint64
  atime_sec ← read_uint64
  atime_nsec ← read_uint64
  mtime_sec ← read_uint64
  mtime_nsec ← read_uint64
  pure (record {
    fid = fid;
    attr = record {
      valid = valid;
      mode = mode;
      uid = uid;
      gid = gid;
      size = size;
      atime_sec = atime_sec;
      atime_nsec = atime_nsec;
      mtime_sec = mtime_sec;
      mtime_nsec = mtime_nsec;
    };
  })

-- `Rsetattr` has an empty body.
abbrev pub Rsetattr : Type 0
Rsetattr = Unit {0}

unfoldable pub encode_rsetattr : Rsetattr → Result Bytes
encode_rsetattr m = done

unfoldable pub decode_rsetattr : Decoder Rsetattr
decode_rsetattr = pure tt
