-- ===== src/P9u/Stat.antt =====
-- proto/p9u/messages.go: Stat, Rstat and Twstat.
pub mod Sizes
pub mod RoundTrip
use ninep.Prelude.{ℕ, ◌+◌, ◌-◌, ◌%◌, ◌^◌, ◌==◌, length, take, drop, ltb, if◌then◌else◌}
use ninep.Proto.Base.{
  Bytes, IsU16, IsU32, IsU64, Result, ok, err, Decoder, ◌>>◌, ◌>>=◌, done, pure, guard,
  stat_too_large, size_overstated,
}
use ninep.Proto.Types.{Qid, QidInRange}
use ninep.Proto.Encode.{
  write_uint16, write_uint32, write_uint64, write_fid, write_string, write_qid,
}
use ninep.Proto.Decode.{read_uint16, read_uint32, read_uint64, read_fid, read_string, read_qid}

pub record Stat : Type 0 where
  pub size : ℕ
  pub type : ℕ
  pub dev : ℕ
  pub qid : Qid
  pub mode : ℕ
  pub atime : ℕ
  pub mtime : ℕ
  pub length : ℕ
  pub name : Bytes
  pub uid : Bytes
  pub gid : Bytes
  pub muid : Bytes
  pub extension : Bytes
  pub n_uid : ℕ
  pub n_gid : ℕ
  pub n_muid : ℕ

-- The ranges of the Go types, the field `Size` apart, which the writer does not use.
pub record StatInRange (s : Stat) : Type 0 where
  pub type : IsU16 s.type
  pub dev : IsU32 s.dev
  pub qid : QidInRange s.qid
  pub mode : IsU32 s.mode
  pub atime : IsU32 s.atime
  pub mtime : IsU32 s.mtime
  pub length : IsU64 s.length
  pub n_uid : IsU32 s.n_uid
  pub n_gid : IsU32 s.n_gid
  pub n_muid : IsU32 s.n_muid

-- The sum that EncodedSize makes, before it wraps.
abbrev pub stat_size : Stat → ℕ
stat_size s =
    39
    + (2 + length s.name)
    + (2 + length s.uid)
    + (2 + length s.gid)
    + (2 + length s.muid)
    + (2 + length s.extension)
    + 12

-- The sum is a uint32.
unfoldable pub encoded_size : Stat → Result ℕ
encoded_size s =
    let size = stat_size s % 2 ^ 32 in
    if ltb 65535 size then err stat_too_large else ok (size % 2 ^ 16)

-- What an encoder does with EncodedSize: its error is returned, its size is used.
unfoldable pub sized : Result ℕ → (ℕ → Result Bytes) → Result Bytes
sized (ok size) write = write size
sized (err e) write = err e

unfoldable pub encode_fields : Stat → Result Bytes
encode_fields s = do
  write_uint16 s.type
  write_uint32 s.dev
  write_qid s.qid
  write_uint32 s.mode
  write_uint32 s.atime
  write_uint32 s.mtime
  write_uint64 s.length
  write_string s.name
  write_string s.uid
  write_string s.gid
  write_string s.muid
  write_string s.extension
  write_uint32 s.n_uid
  write_uint32 s.n_gid
  write_uint32 s.n_muid
  done

unfoldable pub encode_stat : Stat → Result Bytes
encode_stat s = sized (encoded_size s) λ size. write_uint16 size >> encode_fields s

-- A reader on an io.LimitedReader of `n` bytes; the second part of its value is what is left of `n`.
unfoldable pub within {ℓ} : {A : Type ℓ} → ℕ → Bytes → Result (A × Bytes) → Result ((A × ℕ) × Bytes)
within n src (ok (a, rest)) =
    let used = length (take n src) - length rest in ok ((a, n - used), drop used src)
within n src (err e) = err e

unfoldable pub limited {ℓ} : {A : Type ℓ} → ℕ → Decoder A → Decoder (A × ℕ)
unfolding within
limited n read src = within n src (read (take n src))

-- The reader must use up the limit: `if lr.N != 0` is an error.
unfoldable pub filled {ℓ} : {A : Type ℓ} → ℕ → Decoder A → Decoder A
filled n read = do a ← limited n read; _ ← guard (a.1 == 0) size_overstated; pure a.0

unfoldable pub decode_fields : ℕ → Decoder Stat
decode_fields size = do
  type ← read_uint16
  dev ← read_uint32
  qid ← read_qid
  mode ← read_uint32
  atime ← read_uint32
  mtime ← read_uint32
  length ← read_uint64
  name ← read_string
  uid ← read_string
  gid ← read_string
  muid ← read_string
  extension ← read_string
  n_uid ← read_uint32
  n_gid ← read_uint32
  n_muid ← read_uint32
  pure (record {
    size = size;
    type = type;
    dev = dev;
    qid = qid;
    mode = mode;
    atime = atime;
    mtime = mtime;
    length = length;
    name = name;
    uid = uid;
    gid = gid;
    muid = muid;
    extension = extension;
    n_uid = n_uid;
    n_gid = n_gid;
    n_muid = n_muid;
  })

unfoldable pub decode_stat : Decoder Stat
decode_stat = do size ← read_uint16; filled size (decode_fields size)

pub record Rstat : Type 0 where
  pub stat : Stat

unfoldable pub encode_rstat : Rstat → Result Bytes
encode_rstat m =
    sized (encoded_size m.stat) λ size. write_uint16 ((2 + size) % 2 ^ 16) >> encode_stat m.stat

unfoldable pub decode_rstat : Decoder Rstat
decode_rstat = do
  nstat ← read_uint16
  stat ← filled nstat decode_stat
  pure (record { stat = stat })

pub record Twstat : Type 0 where
  pub fid : ℕ
  pub stat : Stat

unfoldable pub encode_twstat : Twstat → Result Bytes
encode_twstat m =
    write_fid m.fid
    >> sized (encoded_size m.stat) λ size. write_uint16 ((2 + size) % 2 ^ 16) >> encode_stat m.stat

unfoldable pub decode_twstat : Decoder Twstat
decode_twstat = do
  fid ← read_fid
  nstat ← read_uint16
  stat ← filled nstat decode_stat
  pure (record { fid = fid; stat = stat })
