-- ===== src/P9l/Xattr.antt =====
-- proto/p9l/messages.go: extended attributes, readdir and fsync.
pub mod RoundTrip
pub mod Canonical
use ninep.Prelude.{ℕ, All, leb, length}
use ninep.Proto.Base.{
  Bytes, IsU8, IsU32, IsU64, Result, Decoder, ◌>>◌, ◌>>=◌, done, check, pure, guard, max_data_size,
  data_too_large,
}
use ninep.Proto.Encode.{write_uint32, write_uint64, write_fid, write_string, write_bytes}
use ninep.Proto.Decode.{read_uint32, read_uint64, read_fid, read_string, read_data}

pub record Txattrwalk : Type 0 where
  pub fid : ℕ
  pub new_fid : ℕ
  pub name : Bytes

pub record TxattrwalkInRange (m : Txattrwalk) : Type 0 where
  pub fid : IsU32 m.fid
  pub new_fid : IsU32 m.new_fid

unfoldable pub encode_txattrwalk : Txattrwalk → Result Bytes
encode_txattrwalk m = do write_fid m.fid; write_fid m.new_fid; write_string m.name; done

unfoldable pub decode_txattrwalk : Decoder Txattrwalk
decode_txattrwalk = do
  fid ← read_fid
  new_fid ← read_fid
  name ← read_string
  pure (record { fid = fid; new_fid = new_fid; name = name })

pub record Rxattrwalk : Type 0 where
  pub size : ℕ

pub record RxattrwalkInRange (m : Rxattrwalk) : Type 0 where
  pub size : IsU64 m.size

unfoldable pub encode_rxattrwalk : Rxattrwalk → Result Bytes
encode_rxattrwalk m = do write_uint64 m.size; done

unfoldable pub decode_rxattrwalk : Decoder Rxattrwalk
decode_rxattrwalk = do size ← read_uint64; pure (record { size = size })

pub record Txattrcreate : Type 0 where
  pub fid : ℕ
  pub name : Bytes
  pub attr_size : ℕ
  pub flags : ℕ

pub record TxattrcreateInRange (m : Txattrcreate) : Type 0 where
  pub fid : IsU32 m.fid
  pub attr_size : IsU64 m.attr_size
  pub flags : IsU32 m.flags

unfoldable pub encode_txattrcreate : Txattrcreate → Result Bytes
encode_txattrcreate m = do
  write_fid m.fid
  write_string m.name
  write_uint64 m.attr_size
  write_uint32 m.flags
  done

unfoldable pub decode_txattrcreate : Decoder Txattrcreate
decode_txattrcreate = do
  fid ← read_fid
  name ← read_string
  attr_size ← read_uint64
  flags ← read_uint32
  pure (record { fid = fid; name = name; attr_size = attr_size; flags = flags })

-- `Rxattrcreate` has an empty body.
abbrev pub Rxattrcreate : Type 0
Rxattrcreate = Unit {0}

unfoldable pub encode_rxattrcreate : Rxattrcreate → Result Bytes
encode_rxattrcreate m = done

unfoldable pub decode_rxattrcreate : Decoder Rxattrcreate
decode_rxattrcreate = pure tt

pub record Treaddir : Type 0 where
  pub fid : ℕ
  pub offset : ℕ
  pub count : ℕ

pub record TreaddirInRange (m : Treaddir) : Type 0 where
  pub fid : IsU32 m.fid
  pub offset : IsU64 m.offset
  pub count : IsU32 m.count

unfoldable pub encode_treaddir : Treaddir → Result Bytes
encode_treaddir m = do write_fid m.fid; write_uint64 m.offset; write_uint32 m.count; done

unfoldable pub decode_treaddir : Decoder Treaddir
decode_treaddir = do
  fid ← read_fid
  offset ← read_uint64
  count ← read_uint32
  pure (record { fid = fid; offset = offset; count = count })

pub record Rreaddir : Type 0 where
  pub payload : Bytes

pub record RreaddirInRange (m : Rreaddir) : Type 0 where
  pub payload : All IsU8 m.payload

-- `EncodeFixed`: all but the payload.
unfoldable pub encode_fixed_rreaddir : Rreaddir → Result Bytes
encode_fixed_rreaddir m = do
  check (leb (length m.payload) max_data_size) data_too_large
  write_uint32 (length m.payload)

unfoldable pub encode_rreaddir : Rreaddir → Result Bytes
encode_rreaddir m = do encode_fixed_rreaddir m; write_bytes m.payload; done

unfoldable pub decode_rreaddir : Decoder Rreaddir
decode_rreaddir = do
  count ← read_uint32
  _ ← guard (leb count max_data_size) data_too_large
  payload ← read_data count
  pure (record { payload = payload })

pub record Tfsync : Type 0 where
  pub fid : ℕ
  pub data_sync : ℕ

pub record TfsyncInRange (m : Tfsync) : Type 0 where
  pub fid : IsU32 m.fid
  pub data_sync : IsU32 m.data_sync

unfoldable pub encode_tfsync : Tfsync → Result Bytes
encode_tfsync m = do write_fid m.fid; write_uint32 m.data_sync; done

unfoldable pub decode_tfsync : Decoder Tfsync
decode_tfsync = do
  fid ← read_fid
  data_sync ← read_uint32
  pure (record { fid = fid; data_sync = data_sync })

-- `Rfsync` has an empty body.
abbrev pub Rfsync : Type 0
Rfsync = Unit {0}

unfoldable pub encode_rfsync : Rfsync → Result Bytes
encode_rfsync m = done

unfoldable pub decode_rfsync : Decoder Rfsync
decode_rfsync = pure tt
