-- ===== src/P9u/Open.antt =====
-- proto/p9u/messages.go: the error reply, open, create, stat and the reply of wstat.
use ninep.Prelude.{ℕ}
use ninep.Proto.Base.{Bytes, IsU8, IsU32, Result, Decoder, ◌>>◌, ◌>>=◌, done, pure}
use ninep.Proto.Types.{Qid, QidInRange}
use ninep.Proto.Encode.{write_uint8, write_uint32, write_fid, write_string, write_qid}
use ninep.Proto.Decode.{read_uint8, read_uint32, read_fid, read_string, read_qid}

pub record Rerror : Type 0 where
  pub ename : Bytes
  pub errno : ℕ

pub record RerrorInRange (m : Rerror) : Type 0 where
  pub errno : IsU32 m.errno

unfoldable pub encode_rerror : Rerror → Result Bytes
encode_rerror m = do write_string m.ename; write_uint32 m.errno; done

unfoldable pub decode_rerror : Decoder Rerror
decode_rerror = do
  ename ← read_string
  errno ← read_uint32
  pure (record { ename = ename; errno = errno })

pub record Topen : Type 0 where
  pub fid : ℕ
  pub mode : ℕ

pub record TopenInRange (m : Topen) : Type 0 where
  pub fid : IsU32 m.fid
  pub mode : IsU8 m.mode

unfoldable pub encode_topen : Topen → Result Bytes
encode_topen m = do write_fid m.fid; write_uint8 m.mode; done

unfoldable pub decode_topen : Decoder Topen
decode_topen = do fid ← read_fid; mode ← read_uint8; pure (record { fid = fid; mode = mode })

pub record Ropen : Type 0 where
  pub qid : Qid
  pub io_unit : ℕ

pub record RopenInRange (m : Ropen) : Type 0 where
  pub qid : QidInRange m.qid
  pub io_unit : IsU32 m.io_unit

unfoldable pub encode_ropen : Ropen → Result Bytes
encode_ropen m = do write_qid m.qid; write_uint32 m.io_unit; done

unfoldable pub decode_ropen : Decoder Ropen
decode_ropen = do
  qid ← read_qid
  io_unit ← read_uint32
  pure (record { qid = qid; io_unit = io_unit })

pub record Tcreate : Type 0 where
  pub fid : ℕ
  pub name : Bytes
  pub perm : ℕ
  pub mode : ℕ
  pub extension : Bytes

pub record TcreateInRange (m : Tcreate) : Type 0 where
  pub fid : IsU32 m.fid
  pub perm : IsU32 m.perm
  pub mode : IsU8 m.mode

unfoldable pub encode_tcreate : Tcreate → Result Bytes
encode_tcreate m = do
  write_fid m.fid
  write_string m.name
  write_uint32 m.perm
  write_uint8 m.mode
  write_string m.extension
  done

unfoldable pub decode_tcreate : Decoder Tcreate
decode_tcreate = do
  fid ← read_fid
  name ← read_string
  perm ← read_uint32
  mode ← read_uint8
  extension ← read_string
  pure (record { fid = fid; name = name; perm = perm; mode = mode; extension = extension })

pub record Rcreate : Type 0 where
  pub qid : Qid
  pub io_unit : ℕ

pub record RcreateInRange (m : Rcreate) : Type 0 where
  pub qid : QidInRange m.qid
  pub io_unit : IsU32 m.io_unit

unfoldable pub encode_rcreate : Rcreate → Result Bytes
encode_rcreate m = do write_qid m.qid; write_uint32 m.io_unit; done

unfoldable pub decode_rcreate : Decoder Rcreate
decode_rcreate = do
  qid ← read_qid
  io_unit ← read_uint32
  pure (record { qid = qid; io_unit = io_unit })

pub record Tstat : Type 0 where
  pub fid : ℕ

pub record TstatInRange (m : Tstat) : Type 0 where
  pub fid : IsU32 m.fid

unfoldable pub encode_tstat : Tstat → Result Bytes
encode_tstat m = do write_fid m.fid; done

unfoldable pub decode_tstat : Decoder Tstat
decode_tstat = do fid ← read_fid; pure (record { fid = fid })

pub record Rwstat : Type 0 where

unfoldable pub encode_rwstat : Rwstat → Result Bytes
encode_rwstat m = done

unfoldable pub decode_rwstat : Decoder Rwstat
decode_rwstat = pure (record {})
