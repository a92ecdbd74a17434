-- ===== src/P9l/Rename.antt =====
-- proto/p9l/messages.go: rename, readlink, renameat and unlinkat.
pub mod RoundTrip
pub mod Canonical
use ninep.Prelude.{ℕ}
use ninep.Proto.Base.{Bytes, IsU32, Result, Decoder, ◌>>◌, ◌>>=◌, done, pure}
use ninep.Proto.Encode.{write_uint32, write_fid, write_string}
use ninep.Proto.Decode.{read_uint32, read_fid, read_string}

pub record Trename : Type 0 where
  pub fid : ℕ
  pub dir_fid : ℕ
  pub name : Bytes

pub record TrenameInRange (m : Trename) : Type 0 where
  pub fid : IsU32 m.fid
  pub dir_fid : IsU32 m.dir_fid

unfoldable pub encode_trename : Trename → Result Bytes
encode_trename m = do write_fid m.fid; write_fid m.dir_fid; write_string m.name; done

unfoldable pub decode_trename : Decoder Trename
decode_trename = do
  fid ← read_fid
  dir_fid ← read_fid
  name ← read_string
  pure (record { fid = fid; dir_fid = dir_fid; name = name })

-- `Rrename` has an empty body.
abbrev pub Rrename : Type 0
Rrename = Unit {0}

unfoldable pub encode_rrename : Rrename → Result Bytes
encode_rrename m = done

unfoldable pub decode_rrename : Decoder Rrename
decode_rrename = pure tt

pub record Treadlink : Type 0 where
  pub fid : ℕ

pub record TreadlinkInRange (m : Treadlink) : Type 0 where
  pub fid : IsU32 m.fid

unfoldable pub encode_treadlink : Treadlink → Result Bytes
encode_treadlink m = do write_fid m.fid; done

unfoldable pub decode_treadlink : Decoder Treadlink
decode_treadlink = do fid ← read_fid; pure (record { fid = fid })

pub record Rreadlink : Type 0 where
  pub target : Bytes

abbrev pub RreadlinkInRange : Rreadlink → Type 0
RreadlinkInRange m = Unit {0}

unfoldable pub encode_rreadlink : Rreadlink → Result Bytes
encode_rreadlink m = do write_string m.target; done

unfoldable pub decode_rreadlink : Decoder Rreadlink
decode_rreadlink = do target ← read_string; pure (record { target = target })

pub record Trenameat : Type 0 where
  pub old_dir_fid : ℕ
  pub old_name : Bytes
  pub new_dir_fid : ℕ
  pub new_name : Bytes

pub record TrenameatInRange (m : Trenameat) : Type 0 where
  pub old_dir_fid : IsU32 m.old_dir_fid
  pub new_dir_fid : IsU32 m.new_dir_fid

unfoldable pub encode_trenameat : Trenameat → Result Bytes
encode_trenameat m = do
  write_fid m.old_dir_fid
  write_string m.old_name
  write_fid m.new_dir_fid
  write_string m.new_name
  done

unfoldable pub decode_trenameat : Decoder Trenameat
decode_trenameat = do
  old_dir_fid ← read_fid
  old_name ← read_string
  new_dir_fid ← read_fid
  new_name ← read_string
  pure (record {
    old_dir_fid = old_dir_fid;
    old_name = old_name;
    new_dir_fid = new_dir_fid;
    new_name = new_name;
  })

-- `Rrenameat` has an empty body.
abbrev pub Rrenameat : Type 0
Rrenameat = Unit {0}

unfoldable pub encode_rrenameat : Rrenameat → Result Bytes
encode_rrenameat m = done

unfoldable pub decode_rrenameat : Decoder Rrenameat
decode_rrenameat = pure tt

pub record Tunlinkat : Type 0 where
  pub dir_fid : ℕ
  pub name : Bytes
  pub flags : ℕ

pub record TunlinkatInRange (m : Tunlinkat) : Type 0 where
  pub dir_fid : IsU32 m.dir_fid
  pub flags : IsU32 m.flags

unfoldable pub encode_tunlinkat : Tunlinkat → Result Bytes
encode_tunlinkat m = do write_fid m.dir_fid; write_string m.name; write_uint32 m.flags; done

unfoldable pub decode_tunlinkat : Decoder Tunlinkat
decode_tunlinkat = do
  dir_fid ← read_fid
  name ← read_string
  flags ← read_uint32
  pure (record { dir_fid = dir_fid; name = name; flags = flags })

-- `Runlinkat` has an empty body.
abbrev pub Runlinkat : Type 0
Runlinkat = Unit {0}

unfoldable pub encode_runlinkat : Runlinkat → Result Bytes
encode_runlinkat m = done

unfoldable pub decode_runlinkat : Decoder Runlinkat
decode_runlinkat = pure tt
