-- ===== src/Memfs/File.antt =====
-- server/memfs/memfs.go: MemFile and StaticFile. The lock makes each method one step. A Go slice that is
-- out of range panics, which is `none`.
pub mod Positions
pub mod Contents
pub mod Refines
pub mod Runs
use ninep.Prelude.{
  ℕ, zero, suc, ◌+◌, ◌-◌, ◌*◌, ◌/◌, ◌%◌, ◌^◌, List, [], ◌∷◌, ◌++◌, Bool, ◌&&◌, ◌||◌, Option, none,
  some, ◌==◌, ltb, leb, length, take, drop, if◌then◌else◌,
}
use ninep.Proto.Base.{Bytes, max_data_size}
use ninep.Proto.Types.{Qid, Attr, SetAttr}
use ninep.Server.Errno.{efbig}
use ninep.Server.Handlers.Io.{min}

abbrev pub max_mem_file_size : ℕ
max_mem_file_size = max_data_size

-- 0o644 and 0o444.
abbrev pub default_mode : ℕ
default_mode = 420

abbrev pub default_static_mode : ℕ
default_static_mode = 292

-- The field `data` is called contents.
pub record MemFile : Type 0 where
  pub contents : Bytes
  pub mode : ℕ
  pub uid : ℕ
  pub gid : ℕ

unfoldable pub new_file_with_mode : Bytes → ℕ → MemFile
new_file_with_mode bs mode = record { contents = bs; mode = mode; uid = 0; gid = 0 }

unfoldable pub new_file : Bytes → MemFile
unfolding new_file_with_mode
new_file bs = new_file_with_mode bs default_mode

unfoldable pub snapshot : MemFile → Bytes
snapshot f = f.contents

-- An error leaves the file as it was.
unfoldable pub replace : MemFile → Bytes → Option ℕ × MemFile
replace f bs =
    if ltb max_mem_file_size (length bs)
    then (some efbig, f)
    else (none, record f { contents = bs })

-- `xs[from:to]` of a slice whose capacity is not used.
unfoldable pub slice {ℓ} : {A : Type ℓ} → List A → ℕ → ℕ → Option (List A)
slice xs from to =
    if leb from to && leb to (length xs) then some (take (to - from) (drop from xs)) else none

-- `copy(buf, s)` for a buffer of `n` bytes: what it moves.
unfoldable pub moved : ℕ → Option Bytes → Option Bytes
moved n none = none
moved n (some bs) = some (take n bs)

-- The bytes that Read puts into a buffer of `n` bytes.
unfoldable pub read_bytes : Bytes → ℕ → ℕ → Option Bytes
unfolding moved slice
read_bytes bs n offset =
    if leb (length bs) offset
    then some []
    else moved n (slice bs offset (min ((offset + n) % 2 ^ 64) (length bs)))

unfoldable pub read : MemFile → ℕ → ℕ → Option Bytes
unfolding read_bytes
read f n offset = read_bytes f.contents n offset

unfoldable pub checked_size : ℕ → ℕ → Option ℕ
checked_size offset count =
    if ltb max_mem_file_size offset || ltb (max_mem_file_size - offset) count
    then none
    else some (offset + count)

-- `make([]byte, n)`.
unfoldable pub zeros : ℕ → Bytes
zeros zero = []
zeros (suc n) = 0 ∷ zeros n

-- `copy(dst, src)`: what dst holds afterwards.
unfoldable pub copy : Bytes → Bytes → Bytes
copy [] src = []
copy (d ∷ dst) [] = d ∷ dst
copy (d ∷ dst) (b ∷ src) = b ∷ copy dst src

unfoldable pub extend : Bytes → ℕ → Bytes
unfolding zeros copy
extend bs n = if ltb (length bs) n then copy (zeros n) bs else bs

-- `copy(f.data[offset:], data)`.
unfoldable pub copy_at : Bytes → ℕ → Bytes → Bytes
unfolding copy
copy_at bs offset src = take offset bs ++ copy (drop offset bs) src

-- The count of bytes written, or the error, and the file.
unfoldable pub write_checked : Option ℕ → MemFile → Bytes → ℕ → Option ℕ × MemFile
unfolding extend copy_at
write_checked none f bs offset = (none, f)
write_checked (some stop) f bs offset =
    (some (length bs % 2 ^ 32), record f { contents = copy_at (extend f.contents stop) offset bs })

-- `none` is EFBIG.
unfoldable pub write : MemFile → Bytes → ℕ → Option ℕ × MemFile
unfolding checked_size write_checked
write f bs offset = write_checked (checked_size offset (length bs)) f bs offset

unfoldable pub or_default : ℕ → ℕ → ℕ
or_default mode d = if mode == 0 then d else mode

abbrev pub no_qid : Qid
no_qid = record { type = 0; version = 0; path = 0 }

-- `proto.Attr{Mode: mode, UID: uid, GID: gid, Size: size, NLink: n}`.
unfoldable pub attr_of : ℕ → ℕ → ℕ → ℕ → ℕ → Attr
attr_of mode uid gid size n = record {
  valid = 0;
  qid = no_qid;
  mode = mode;
  uid = uid;
  gid = gid;
  n_link = n;
  r_dev = 0;
  size = size;
  blk_size = 0;
  blocks = 0;
  atime_sec = 0;
  atime_nsec = 0;
  mtime_sec = 0;
  mtime_nsec = 0;
  ctime_sec = 0;
  ctime_nsec = 0;
  btime_sec = 0;
  btime_nsec = 0;
  gen = 0;
  data_version = 0;
}

unfoldable pub getattr : MemFile → Attr
unfolding or_default attr_of
getattr f = attr_of (or_default f.mode default_mode) f.uid f.gid (length f.contents) 1

-- `valid & (1 << k) != 0`. The masks SetAttrMode, UID, GID and Size are 1, 2, 4 and 8.
unfoldable pub has_bit : ℕ → ℕ → Bool
has_bit valid mask = (valid / mask) % 2 == 1

unfoldable pub resize : Bytes → ℕ → Bytes
unfolding extend
resize bs n = if ltb n (length bs) then take n bs else extend bs n

unfoldable pub setattr : MemFile → SetAttr → Option ℕ × MemFile
unfolding has_bit resize
setattr f a =
    let sized = has_bit a.valid 8 in
    if sized && ltb max_mem_file_size a.size then (some efbig, f) else (
      none,
      record {
        contents = if sized then resize f.contents a.size else f.contents;
        mode = if has_bit a.valid 1 then a.mode else f.mode;
        uid = if has_bit a.valid 2 then a.uid else f.uid;
        gid = if has_bit a.valid 4 then a.gid else f.gid;
      },
    )

pub record StaticFile : Type 0 where
  pub content : Bytes
  pub mode : ℕ

unfoldable pub new_static_file : Bytes → StaticFile
new_static_file bs = record { content = bs; mode = default_static_mode }

unfoldable pub read_static : StaticFile → ℕ → ℕ → Option Bytes
unfolding read_bytes
read_static f n offset = read_bytes f.content n offset

unfoldable pub getattr_static : StaticFile → Attr
unfolding or_default attr_of
getattr_static f = attr_of (or_default f.mode default_static_mode) 0 0 (length f.content) 1
