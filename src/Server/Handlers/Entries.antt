-- ===== src/Server/Handlers/Entries.antt =====
-- server/bridge.go: the handlers that add, remove and rename the entries of a directory.
use ninep.Prelude.{ℕ, not, Option, none, some}
use ninep.Proto.Base.{Bytes}
use ninep.P9l.Make.{Tmkdir, Tsymlink, Tlink, Tmknod}
use ninep.P9l.Rename.{Tunlinkat, Trenameat, Trename}
use ninep.P9l.Messages.{rmkdir, rsymlink, rlink, rmknod, runlinkat, rrenameat, rrename}
use ninep.Server.Errno.{enosys, einval}
use ninep.Server.Names.{is_empty, valid_name}
use ninep.Server.Inode.{Inodes, find_child, name_of, add_child, remove_child}
use ninep.Server.Conn.{Backend, Reply, reply, Handler, give, ◌>>=◌, ◌>>◌, guard, need, ask, change}
use ninep.Server.Conn.Run.{call, get_fid}
use ninep.Server.Handlers.Open.{register_child}

-- `if ie, ok := dir.(InodeEmbedder); ok { ie.EmbeddedInode().RemoveChild(name) }`
unfoldable pub unregister : Option ℕ → Bytes → Inodes → Inodes
unregister none name t = t
unregister (some i) name t = remove_child t i name

unfoldable pub add_to : Option ℕ → Bytes → ℕ → Inodes → Inodes
add_to none name child t = t
add_to (some i) name child t = add_child t i name child

unfoldable pub move_found : Option ℕ → ℕ → Bytes → Option ℕ → Bytes → Inodes → Inodes
unfolding add_to
move_found none old old_name new new_name t = t
move_found (some child) old old_name new new_name t =
    add_to new new_name child (remove_child t old old_name)

-- The child that the old directory's inode has under the old name goes to the new one's.
unfoldable pub move_child : Option ℕ → Bytes → Option ℕ → Bytes → Inodes → Inodes
unfolding move_found
move_child none old_name new new_name t = t
move_child (some old) old_name new new_name t =
    move_found (find_child (t.children old) old_name) old old_name new new_name t

module _ (b : Backend) where
  open b use {World}

  unfoldable pub handle_mkdir : Tmkdir → Handler World Reply
  unfolding register_child
  handle_mkdir m = do
    fs ← get_fid m.dir_fid
    guard (valid_name m.name) einval
    mkdir ← need (b.mkdir fs.node) enosys
    child ← call b (mkdir m.name m.mode m.gid)
    register_child b fs.node child m.name
    qid ← ask (λ c. b.qid c.world child)
    give (reply (rmkdir (record { qid = qid })))

  unfoldable pub handle_symlink : Tsymlink → Handler World Reply
  unfolding register_child
  handle_symlink m = do
    fs ← get_fid m.dir_fid
    guard (valid_name m.name) einval
    symlink ← need (b.symlink fs.node) enosys
    child ← call b (symlink m.name m.target m.gid)
    register_child b fs.node child m.name
    qid ← ask (λ c. b.qid c.world child)
    give (reply (rsymlink (record { qid = qid })))

  unfoldable pub handle_link : Tlink → Handler World Reply
  unfolding register_child
  handle_link m = do
    dir ← get_fid m.dir_fid
    target ← get_fid m.fid
    guard (valid_name m.name) einval
    link ← need (b.link dir.node) enosys
    _ ← call b (link target.node m.name)
    register_child b dir.node target.node m.name
    give (reply (rlink (record {})))

  unfoldable pub handle_mknod : Tmknod → Handler World Reply
  unfolding register_child
  handle_mknod m = do
    fs ← get_fid m.dir_fid
    guard (valid_name m.name) einval
    mknod ← need (b.mknod fs.node) enosys
    child ← call b (mknod m.name m.mode m.major m.minor m.gid)
    register_child b fs.node child m.name
    qid ← ask (λ c. b.qid c.world child)
    give (reply (rmknod (record { qid = qid })))

  unfoldable pub handle_unlinkat : Tunlinkat → Handler World Reply
  unfolding unregister
  handle_unlinkat m = do
    fs ← get_fid m.dir_fid
    guard (valid_name m.name) einval
    unlink ← need (b.unlink fs.node) enosys
    _ ← call b (unlink m.name m.flags)
    change (λ c. record c { inodes = unregister (b.inode fs.node) m.name c.inodes })
    give (reply (runlinkat (record {})))

  unfoldable pub handle_renameat : Trenameat → Handler World Reply
  unfolding move_child
  handle_renameat m = do
    old_dir ← get_fid m.old_dir_fid
    new_dir ← get_fid m.new_dir_fid
    guard (valid_name m.old_name) einval
    guard (valid_name m.new_name) einval
    rename ← need (b.rename old_dir.node) enosys
    _ ← call b (rename m.old_name new_dir.node m.new_name)
    change (λ c. record c {
      inodes =
          move_child (b.inode old_dir.node) m.old_name (b.inode new_dir.node) m.new_name c.inodes;
    })
    give (reply (rrenameat (record {})))

  unfoldable pub handle_rename : Trename → Handler World Reply
  unfolding add_to
  handle_rename m = do
    fs ← get_fid m.fid
    dir ← get_fid m.dir_fid
    guard (valid_name m.name) einval
    child ← need (b.inode fs.node) enosys
    p ← ask (λ c. c.inodes.parent child)
    parent ← need p enosys
    old_name ← ask (λ c. name_of child (c.inodes.children parent))
    guard (not (is_empty old_name)) einval
    rename ← need (b.rename (b.node_of parent)) enosys
    _ ← call b (rename old_name dir.node m.name)
    change (λ c. record c {
      inodes = add_to (b.inode dir.node) m.name child (remove_child c.inodes parent old_name);
    })
    give (reply (rrename (record {})))
