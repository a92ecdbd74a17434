-- ===== src/P9l/Lock.antt =====
-- proto/p9l/messages.go: file locks.
pub mod RoundTrip
pub mod Canonical
use ninep.Prelude.{ℕ, ◌≤◌, ◌<◌, ◌==◌, leb, length}
use ninep.Proto.Base.{
  Bytes, IsU32, IsU64, Result, Decoder, ◌>>◌, ◌>>=◌, done, pure, guard, invalid_lock_type,
  invalid_lock_flags, invalid_lock_status,
}
use ninep.Proto.Types.{lock_type_unlck, lock_status_grace, unknown_lock_flags}
use ninep.Proto.Encode.{write_uint8, write_uint32, write_uint64, write_fid, write_string}
use ninep.Proto.Decode.{read_uint8, read_uint32, read_uint64, read_fid, read_string}

pub record Tlock : Type 0 where
  pub fid : ℕ
  pub lock_type : ℕ
  pub flags : ℕ
  pub start : ℕ
  pub length : ℕ
  pub proc_id : ℕ
  pub client_id : Bytes

pub record TlockInRange (m : Tlock) : Type 0 where
  pub fid : IsU32 m.fid
  pub lock_type : m.lock_type ≤ lock_type_unlck
  pub flags : m.flags < 4
  pub start : IsU64 m.start
  pub length : IsU64 m.length
  pub proc_id : IsU32 m.proc_id

unfoldable pub encode_tlock : Tlock → Result Bytes
encode_tlock m = do
  write_fid m.fid
  write_uint8 m.lock_type
  write_uint32 m.flags
  write_uint64 m.start
  write_uint64 m.length
  write_uint32 m.proc_id
  write_string m.client_id
  done

unfoldable pub decode_tlock : Decoder Tlock
decode_tlock = do
  fid ← read_fid
  lock_type ← read_uint8
  _ ← guard (leb lock_type lock_type_unlck) invalid_lock_type
  flags ← read_uint32
  _ ← guard (unknown_lock_flags flags == 0) invalid_lock_flags
  start ← read_uint64
  length ← read_uint64
  proc_id ← read_uint32
  client_id ← read_string
  pure (record {
    fid = fid;
    lock_type = lock_type;
    flags = flags;
    start = start;
    length = length;
    proc_id = proc_id;
    client_id = client_id;
  })

pub record Rlock : Type 0 where
  pub status : ℕ

pub record RlockInRange (m : Rlock) : Type 0 where
  pub status : m.status ≤ lock_status_grace

unfoldable pub encode_rlock : Rlock → Result Bytes
encode_rlock m = do write_uint8 m.status; done

unfoldable pub decode_rlock : Decoder Rlock
decode_rlock = do
  status ← read_uint8
  _ ← guard (leb status lock_status_grace) invalid_lock_status
  pure (record { status = status })

pub record Tgetlock : Type 0 where
  pub fid : ℕ
  pub lock_type : ℕ
  pub start : ℕ
  pub length : ℕ
  pub proc_id : ℕ
  pub client_id : Bytes

pub record TgetlockInRange (m : Tgetlock) : Type 0 where
  pub fid : IsU32 m.fid
  pub lock_type : m.lock_type ≤ lock_type_unlck
  pub start : IsU64 m.start
  pub length : IsU64 m.length
  pub proc_id : IsU32 m.proc_id

unfoldable pub encode_tgetlock : Tgetlock → Result Bytes
encode_tgetlock m = do
  write_fid m.fid
  write_uint8 m.lock_type
  write_uint64 m.start
  write_uint64 m.length
  write_uint32 m.proc_id
  write_string m.client_id
  done

unfoldable pub decode_tgetlock : Decoder Tgetlock
decode_tgetlock = do
  fid ← read_fid
  lock_type ← read_uint8
  _ ← guard (leb lock_type lock_type_unlck) invalid_lock_type
  start ← read_uint64
  length ← read_uint64
  proc_id ← read_uint32
  client_id ← read_string
  pure (record {
    fid = fid;
    lock_type = lock_type;
    start = start;
    length = length;
    proc_id = proc_id;
    client_id = client_id;
  })

pub record Rgetlock : Type 0 where
  pub lock_type : ℕ
  pub start : ℕ
  pub length : ℕ
  pub proc_id : ℕ
  pub client_id : Bytes

pub record RgetlockInRange (m : Rgetlock) : Type 0 where
  pub lock_type : m.lock_type ≤ lock_type_unlck
  pub start : IsU64 m.start
  pub length : IsU64 m.length
  pub proc_id : IsU32 m.proc_id

unfoldable pub encode_rgetlock : Rgetlock → Result Bytes
encode_rgetlock m = do
  write_uint8 m.lock_type
  write_uint64 m.start
  write_uint64 m.length
  write_uint32 m.proc_id
  write_string m.client_id
  done

unfoldable pub decode_rgetlock : Decoder Rgetlock
decode_rgetlock = do
  lock_type ← read_uint8
  _ ← guard (leb lock_type lock_type_unlck) invalid_lock_type
  start ← read_uint64
  length ← read_uint64
  proc_id ← read_uint32
  client_id ← read_string
  pure (record {
    lock_type = lock_type;
    start = start;
    length = length;
    proc_id = proc_id;
    client_id = client_id;
  })
