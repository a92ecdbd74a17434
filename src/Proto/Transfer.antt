-- ===== src/Proto/Transfer.antt =====
-- proto/messages.go: read and write. The field `Data` is `payload`.
pub mod RoundTrip
pub mod Canonical
use ninep.Prelude.{ℕ, All, leb, length}
use ninep.Proto.Base.{
  Bytes, IsU8, IsU32, IsU64, Result, Decoder, ◌>>◌, ◌>>=◌, done, check, pure, guard, max_data_size,
  data_too_large,
}
use ninep.Proto.Encode.{write_uint32, write_uint64, write_fid, write_bytes}
use ninep.Proto.Decode.{read_uint32, read_uint64, read_fid, read_data}

pub record Tread : Type 0 where
  pub fid : ℕ
  pub offset : ℕ
  pub count : ℕ

pub record TreadInRange (m : Tread) : Type 0 where
  pub fid : IsU32 m.fid
  pub offset : IsU64 m.offset
  pub count : IsU32 m.count

unfoldable pub encode_tread : Tread → Result Bytes
encode_tread m = do write_fid m.fid; write_uint64 m.offset; write_uint32 m.count; done

unfoldable pub decode_tread : Decoder Tread
decode_tread = do
  fid ← read_fid
  offset ← read_uint64
  count ← read_uint32
  pure (record { fid = fid; offset = offset; count = count })

pub record Rread : Type 0 where
  pub payload : Bytes

pub record RreadInRange (m : Rread) : Type 0 where
  pub payload : All IsU8 m.payload

-- `EncodeFixed`: all but the payload.
unfoldable pub encode_fixed_rread : Rread → Result Bytes
encode_fixed_rread m = do
  check (leb (length m.payload) max_data_size) data_too_large
  write_uint32 (length m.payload)

unfoldable pub encode_rread : Rread → Result Bytes
encode_rread m = do encode_fixed_rread m; write_bytes m.payload; done

unfoldable pub decode_rread : Decoder Rread
decode_rread = do
  count ← read_uint32
  _ ← guard (leb count max_data_size) data_too_large
  payload ← read_data count
  pure (record { payload = payload })

pub record Twrite : Type 0 where
  pub fid : ℕ
  pub offset : ℕ
  pub payload : Bytes

pub record TwriteInRange (m : Twrite) : Type 0 where
  pub fid : IsU32 m.fid
  pub offset : IsU64 m.offset
  pub payload : All IsU8 m.payload

unfoldable pub encode_fixed_twrite : Twrite → Result Bytes
encode_fixed_twrite m = do
  check (leb (length m.payload) max_data_size) data_too_large
  write_fid m.fid
  write_uint64 m.offset
  write_uint32 (length m.payload)
  done

unfoldable pub encode_twrite : Twrite → Result Bytes
encode_twrite m = do encode_fixed_twrite m; write_bytes m.payload; done

unfoldable pub decode_twrite : Decoder Twrite
decode_twrite = do
  fid ← read_fid
  offset ← read_uint64
  count ← read_uint32
  _ ← guard (leb count max_data_size) data_too_large
  payload ← read_data count
  pure (record { fid = fid; offset = offset; payload = payload })

pub record Rwrite : Type 0 where
  pub count : ℕ

pub record RwriteInRange (m : Rwrite) : Type 0 where
  pub count : IsU32 m.count

unfoldable pub encode_rwrite : Rwrite → Result Bytes
encode_rwrite m = do write_uint32 m.count; done

unfoldable pub decode_rwrite : Decoder Rwrite
decode_rwrite = do count ← read_uint32; pure (record { count = count })
