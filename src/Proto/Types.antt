-- ===== src/Proto/Types.antt =====
-- proto/types.go: the structs that the messages carry, and the bounds of the lock fields.
-- A string is its bytes.
use ninep.Prelude.{ℕ, ◌-◌, ◌%◌}
use ninep.Proto.Base.{IsU8, IsU32, IsU64}

pub record Qid : Type 0 where
  pub type : ℕ
  pub version : ℕ
  pub path : ℕ

pub record QidInRange (q : Qid) : Type 0 where
  pub type : IsU8 q.type
  pub version : IsU32 q.version
  pub path : IsU64 q.path

pub record FsStat : Type 0 where
  pub type : ℕ
  pub b_size : ℕ
  pub blocks : ℕ
  pub b_free : ℕ
  pub b_avail : ℕ
  pub files : ℕ
  pub f_free : ℕ
  pub fsid : ℕ
  pub name_len : ℕ

pub record FsStatInRange (s : FsStat) : Type 0 where
  pub type : IsU32 s.type
  pub b_size : IsU32 s.b_size
  pub blocks : IsU64 s.blocks
  pub b_free : IsU64 s.b_free
  pub b_avail : IsU64 s.b_avail
  pub files : IsU64 s.files
  pub f_free : IsU64 s.f_free
  pub fsid : IsU64 s.fsid
  pub name_len : IsU32 s.name_len

pub record Attr : Type 0 where
  pub valid : ℕ
  pub qid : Qid
  pub mode : ℕ
  pub uid : ℕ
  pub gid : ℕ
  pub n_link : ℕ
  pub r_dev : ℕ
  pub size : ℕ
  pub blk_size : ℕ
  pub blocks : ℕ
  pub atime_sec : ℕ
  pub atime_nsec : ℕ
  pub mtime_sec : ℕ
  pub mtime_nsec : ℕ
  pub ctime_sec : ℕ
  pub ctime_nsec : ℕ
  pub btime_sec : ℕ
  pub btime_nsec : ℕ
  pub gen : ℕ
  pub data_version : ℕ

pub record AttrInRange (a : Attr) : Type 0 where
  pub valid : IsU64 a.valid
  pub qid : QidInRange a.qid
  pub mode : IsU32 a.mode
  pub uid : IsU32 a.uid
  pub gid : IsU32 a.gid
  pub n_link : IsU64 a.n_link
  pub r_dev : IsU64 a.r_dev
  pub size : IsU64 a.size
  pub blk_size : IsU64 a.blk_size
  pub blocks : IsU64 a.blocks
  pub atime_sec : IsU64 a.atime_sec
  pub atime_nsec : IsU64 a.atime_nsec
  pub mtime_sec : IsU64 a.mtime_sec
  pub mtime_nsec : IsU64 a.mtime_nsec
  pub ctime_sec : IsU64 a.ctime_sec
  pub ctime_nsec : IsU64 a.ctime_nsec
  pub btime_sec : IsU64 a.btime_sec
  pub btime_nsec : IsU64 a.btime_nsec
  pub gen : IsU64 a.gen
  pub data_version : IsU64 a.data_version

pub record SetAttr : Type 0 where
  pub valid : ℕ
  pub mode : ℕ
  pub uid : ℕ
  pub gid : ℕ
  pub size : ℕ
  pub atime_sec : ℕ
  pub atime_nsec : ℕ
  pub mtime_sec : ℕ
  pub mtime_nsec : ℕ

pub record SetAttrInRange (a : SetAttr) : Type 0 where
  pub valid : IsU32 a.valid
  pub mode : IsU32 a.mode
  pub uid : IsU32 a.uid
  pub gid : IsU32 a.gid
  pub size : IsU64 a.size
  pub atime_sec : IsU64 a.atime_sec
  pub atime_nsec : IsU64 a.atime_nsec
  pub mtime_sec : IsU64 a.mtime_sec
  pub mtime_nsec : IsU64 a.mtime_nsec

-- `LockTypeUnlck` and `LockStatusGrace` are the last of their constants.
abbrev pub lock_type_unlck : ℕ
lock_type_unlck = 2

abbrev pub lock_status_grace : ℕ
lock_status_grace = 3

-- `flags &^ (LockFlagBlock | LockFlagReclaim)`: the two flags are the two lowest bits.
unfoldable pub unknown_lock_flags : ℕ → ℕ
unknown_lock_flags flags = flags - flags % 4
