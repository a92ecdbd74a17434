-- ===== src/Memfs/Dir.antt =====
-- server/memfs/memfs.go: MemDir; the builder of server/memfs/builder.go; QIDGenerator of server/qid.go.
-- The inodes are those of one tree; an inode is the node that embeds it.
pub mod Names
pub mod Runs
use ninep.Prelude.{
  ℕ, ◌+◌, ◌%◌, ◌/◌, ◌^◌, List, [], ◌∷◌, Bool, true, false, not, ◌&&◌, Option, none, some, ◌==◌,
  length, if◌then◌else◌,
}
use ninep.Proto.Base.{Bytes}
use ninep.Proto.Types.{Qid, Attr}
use ninep.Proto.Dirent.{Dirent}
use ninep.Server.Errno.{enoent, eexist, enotdir, eisdir, einval, enotempty}
use ninep.Server.Inode.{
  Children, Inodes, set_at, find_child, add_child, try_add_child, remove_child_if,
}
use ninep.Memfs.File.{
  MemFile, StaticFile, new_file_with_mode, new_static_file, default_mode, or_default, attr_of,
}

abbrev pub qt_dir : ℕ
qt_dir = 128

abbrev pub qt_symlink : ℕ
qt_symlink = 2

abbrev pub qt_file : ℕ
qt_file = 0

pub record MemDir : Type 0 where
  pub mode : ℕ
  pub uid : ℕ
  pub gid : ℕ

pub data Node : Type 0 where
  file : MemFile → Node
  static : StaticFile → Node
  directory : MemDir → Node
  symlink : Bytes → Node

-- `count` inodes were made so far, 0 to `count - 1`, with the QIDs of one generator, which is at `gen`.
pub record Memory : Type 0 where
  pub tree : Inodes
  pub nodes : ℕ → Node
  pub qids : ℕ → Qid
  pub count : ℕ
  pub gen : ℕ

-- QIDGenerator.Next.
unfoldable pub next_qid : ℕ → ℕ → Qid × ℕ
next_qid type gen =
    let path = (gen + 1) % 2 ^ 64 in (record { type = type; version = 0; path = path }, path)

-- A new node, with `Init(d.gen.Next(type), child)`: its inode, which is in no directory yet.
unfoldable pub make : Memory → Node → ℕ → ℕ × Memory
unfolding next_qid
make m n type =
    let q = next_qid type m.gen in
    (
      m.count,
      record m {
        nodes = λ i. if i == m.count then n else m.nodes i;
        qids = λ i. if i == m.count then q.0 else m.qids i;
        count = m.count + 1;
        gen = q.1;
      },
    )

unfoldable pub attach : Memory → ℕ → Bytes → ℕ → Memory
attach m d name child = record m { tree = add_child m.tree d name child }

-- The methods of the builder; they replace a child of the same name.
unfoldable pub add_node : Memory → ℕ → Bytes → Node → ℕ → Memory
unfolding make attach
add_node m d name n type = let r = make m n type in attach r.1 d name r.0

abbrev pub new_dir : Memory → ℕ × Memory
new_dir m = make m (directory (record { mode = 0; uid = 0; gid = 0 })) qt_dir

unfoldable pub add_file_with_mode : Memory → ℕ → Bytes → Bytes → ℕ → Memory
add_file_with_mode m d name bs mode = add_node m d name (file (new_file_with_mode bs mode)) qt_file

unfoldable pub add_file : Memory → ℕ → Bytes → Bytes → Memory
unfolding add_file_with_mode
add_file m d name bs = add_file_with_mode m d name bs default_mode

unfoldable pub add_static_file : Memory → ℕ → Bytes → Bytes → Memory
add_static_file m d name bs = add_node m d name (static (new_static_file bs)) qt_file

unfoldable pub add_dir : Memory → ℕ → Bytes → Memory
add_dir m d name = add_node m d name (directory (record { mode = 0; uid = 0; gid = 0 })) qt_dir

unfoldable pub add_symlink : Memory → ℕ → Bytes → Bytes → Memory
add_symlink m d name target = add_node m d name (symlink target) qt_symlink

-- WithDir: `fn` gets the new directory.
unfoldable pub with_dir : Memory → ℕ → Bytes → (ℕ → Memory → Memory) → Memory
with_dir m d name fn = let r = new_dir m in fn r.0 (attach r.1 d name r.0)

-- Inode.Lookup; `none` is ENOENT.
unfoldable pub lookup : Memory → ℕ → Bytes → Option ℕ
lookup m d name = find_child (m.tree.children d) name

-- The result and the error of a call: one or the other.
pub data Result (A : Type 0) : Type 0 where
  returned : A → Result A
  refused : ℕ → Result A

unfoldable pub try_attach : Memory → ℕ → Bytes → ℕ → Result ℕ × Memory
try_attach m d name child =
    let r = try_add_child m.tree d name child in
    if r.0 then (returned child, record m { tree = r.1 }) else (refused eexist, m)

unfoldable pub create : Memory → ℕ → Bytes → ℕ → Result ℕ × Memory
unfolding try_attach
create m d name mode =
    let r = make m (file (new_file_with_mode [] mode)) qt_file in try_attach r.1 d name r.0

unfoldable pub mkdir : Memory → ℕ → Bytes → ℕ → Result ℕ × Memory
unfolding try_attach
mkdir m d name mode =
    let r = make m (directory (record { mode = mode; uid = 0; gid = 0 })) qt_dir in
    try_attach r.1 d name r.0

abbrev pub remove_dir : ℕ
remove_dir = 0x200

-- The check that Unlink hands to RemoveChildIf.
unfoldable pub removable : Memory → ℕ → ℕ → ℕ → Option ℕ
removable m flags child children =
    let is_dir = (m.qids child).type == qt_dir in
    if flags == remove_dir
    then (if not is_dir then some enotdir else if not (children == 0) then some enotempty else none)
    else if is_dir
    then some eisdir
    else none

unfoldable pub unlink : Memory → ℕ → Bytes → ℕ → Option ℕ × Memory
unfolding removable
unlink m d name flags =
    let r = remove_child_if m.tree d name (removable m flags) in
    if not (flags == 0) && not (flags == remove_dir)
    then (some einval, m)
    else (r.0, record m { tree = r.1 })

-- proto.QIDTypeToDT.
unfoldable pub qid_type_to_dt : ℕ → ℕ
qid_type_to_dt type =
    if (type / qt_dir) % 2 == 1 then 4 else if (type / qt_symlink) % 2 == 1 then 10 else 8

-- A range over a map has no order; the model takes that of the list.
unfoldable pub entries_from : Memory → ℕ → Children → List Dirent
unfolding qid_type_to_dt
entries_from m offset [] = []
entries_from m offset ((name, i) ∷ cs) =
    record {
      qid = m.qids i;
      offset = (offset + 1) % 2 ^ 64;
      type = qid_type_to_dt (m.qids i).type;
      name = name;
    }
    ∷ entries_from m (offset + 1) cs

unfoldable pub readdir : Memory → ℕ → List Dirent
unfolding entries_from
readdir m d = entries_from m 0 (m.tree.children d)

-- S_IFDIR | mode, and 0o755 for no mode.
unfoldable pub getattr_dir : Memory → ℕ → MemDir → Attr
getattr_dir m d dir =
    let mode = or_default dir.mode 493 in
    attr_of (if (mode / 16384) % 2 == 1 then mode else mode + 16384) dir.uid dir.gid 0
      (2 + length (m.tree.children d))
