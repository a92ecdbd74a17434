-- ===== src/Server/Handlers/References/Plain.antt =====
-- The handlers that leave alone which node each fid is bound to, and the references on the inodes,
-- whatever they answer.
use ninep.Prelude.{ℕ, ◌≡◌, refl, Bool, true, false, Option, none, some, if◌then◌else◌}
use ninep.Server.Conn.{Backend, Handler, change}
use ninep.Prelude.{List}
use ninep.Proto.Base.{Bytes}
use ninep.Proto.Dirent.{Dirent}
use ninep.Server.Conn.{Reply, Call, Filled}
use ninep.Server.Inode.{Inodes, add_child, remove_child, find_child}
use ninep.Server.Conn.Run.{Fid}
use ninep.Server.Conn.Calm.{
  Same, Calm, Calm-give, Calm-fail, Calm-guard, Calm-need, Calm-ask, Calm-change, Calm-bind,
  Calm-then, Calm-get, Calm-put, Calm-call, Calm-io,
}
use ninep.Server.Conn.Sound.{Firm, Firm-change}
use ninep.Server.Handlers.Open.{register_at, register_child}
use ninep.P9l.Xattr.{Tfsync, Treaddir, Txattrcreate}
use ninep.P9l.Attributes.{Tgetattr, Tsetattr}
use ninep.P9l.Lock.{Tgetlock, Tlock}
use ninep.P9l.Make.{Tlink, Tmkdir, Tmknod, Tsymlink}
use ninep.Proto.Transfer.{Tread, Twrite}
use ninep.P9l.Rename.{Treadlink, Trename, Trenameat, Tunlinkat}
use ninep.P9u.Open.{Tstat}
use ninep.P9l.Open.{Tstatfs}
use ninep.Server.Handlers.Io.{
  handle_read, read_fid, read_opened, fill_pooled, handle_write, write_fid, write_xattr,
  write_opened, handle_fsync, fsync_opened,
}
use ninep.Server.Handlers.Readdir.{
  handle_readdir, readdir_opened, readdir_by, readdir_simple, listing, fetch,
}
use ninep.Server.Handlers.Attributes.{
  handle_getattr, handle_setattr, handle_u_stat, handle_readlink, handle_statfs, handle_lock,
  lock_opened, handle_getlock, get_lock_opened,
}
use ninep.Server.Handlers.Entries.{
  handle_mkdir, handle_symlink, handle_link, handle_mknod, handle_unlinkat, handle_renameat,
  handle_rename, unregister, add_to, move_found, move_child,
}
use ninep.Server.Handlers.Xattr.{
  to_xattr_write, handle_xattrcreate, xattrcreate_by, start_write, can_commit,
}

pub Calm-if :
    {World A : Type 0} {o : Option (ℕ × ℕ)} (t : Bool) {h k : Handler World A}
    → Calm o h
    → Calm o k
    → Calm o (if t then h else k)
Calm-if true s r = s
Calm-if false s r = r

pub ruleset calm = (
  Calm-give, Calm-fail, Calm-guard, Calm-need, Calm-ask, Calm-get, Calm-bind, Calm-then, Calm-put,
  Calm-call, Calm-io, Calm-if,
)

same_inodes :
    {World : Type 0} (f : Inodes → Inodes)
    → ((t : Inodes) (i : ℕ) → (f t).refs i ≡ t.refs i)
    → {o : Option (ℕ × ℕ)} → Calm {World = World} o (change (λ c. record c { inodes = f c.inodes }))
same_inodes f s = Calm-change _ λ c. record { fids = refl; refs = s c.inodes }

register_at-refs :
    (p o : Option ℕ) (name : Bytes) (t : Inodes) (i : ℕ)
    → (register_at p o name t).refs i ≡ t.refs i
unfolding register_at add_child
register_at-refs (some p) (some o) name t i = refl
register_at-refs (some p) none name t i = refl
register_at-refs none o name t i = refl

unregister-refs :
    (o : Option ℕ) (name : Bytes) (t : Inodes) (i : ℕ) → (unregister o name t).refs i ≡ t.refs i
unfolding unregister remove_child
unregister-refs none name t i = refl
unregister-refs (some p) name t i = refl

add_to-refs :
    (o : Option ℕ) (name : Bytes) (child : ℕ) (t : Inodes) (i : ℕ)
    → (add_to o name child t).refs i ≡ t.refs i
unfolding add_to add_child
add_to-refs none name child t i = refl
add_to-refs (some p) name child t i = refl

move_found-refs :
    (o : Option ℕ) (old : ℕ) (name : Bytes) (new : Option ℕ) (to : Bytes) (t : Inodes) (i : ℕ)
    → (move_found o old name new to t).refs i ≡ t.refs i
unfolding move_found add_to add_child remove_child
move_found-refs none old name new to t i = refl
move_found-refs (some c) old name none to t i = refl
move_found-refs (some c) old name (some p) to t i = refl

move_child-refs :
    (o : Option ℕ) (name : Bytes) (new : Option ℕ) (to : Bytes) (t : Inodes) (i : ℕ)
    → (move_child o name new to t).refs i ≡ t.refs i
unfolding move_child
move_child-refs none name new to t i = refl
move_child-refs (some p) name new to t i =
    move_found-refs (find_child (t.children p) name) p name new to t i

module _ {World : Type 0} {o : Option (ℕ × ℕ)} where
  Calm-unregister :
      (p : Option ℕ) (name : Bytes)
      → Calm {World = World} o (change (λ c. record c { inodes = unregister p name c.inodes }))
  Calm-unregister p name = same_inodes _ (unregister-refs p name)

  Calm-move :
      (p q : Option ℕ) (name to : Bytes)
      → Calm {World = World} o (change (λ c. record c { inodes = move_child p name q to c.inodes }))
  Calm-move p q name to = same_inodes _ (move_child-refs p name q to)

  Calm-add_to :
      (p : Option ℕ) (name to : Bytes) (child parent : ℕ)
      → Calm {World = World} o (
          change (λ c. record c { inodes = add_to p to child (remove_child c.inodes parent name) }))
  unfolding remove_child
  Calm-add_to p name to child parent =
      same_inodes (λ t. add_to p to child (remove_child t parent name))
        (λ t. add_to-refs p to child (remove_child t parent name))

module _ (b : Backend) where
  pub same_register :
      (p c : ℕ) (name : Bytes) {o : Option (ℕ × ℕ)} → Calm o (register_child b p c name)
  unfolding register_child
  same_register p c name = same_inodes _ (register_at-refs (b.inode p) (b.inode c) name)

  pub Firm-register : (p c : ℕ) (name : Bytes) → Firm b.inode (register_child b p c name)
  unfolding register_child
  Firm-register p c name =
      Firm-change b.inode _
        (λ d. record { fids = refl; refs = register_at-refs (b.inode p) (b.inode c) name d.inodes })

  pub Calm-read : (m : Tread) → Calm none (handle_read b m)
  unfolding handle_read read_fid read_opened fill_pooled
  Calm-read m = search calm depth 12

  Calm-write_xattr :
      (w : Option ℕ) (m : Twrite) (fs : Fid) → Calm (some (m.fid, fs.node)) (write_xattr b w m fs)
  unfolding write_xattr
  Calm-write_xattr (some w) m fs = search calm depth 12
  Calm-write_xattr none m fs = search calm depth 12

  Calm-write_opened : (m : Twrite) (fs : Fid) {o : Option (ℕ × ℕ)} → Calm o (write_opened b m fs)
  unfolding write_opened
  Calm-write_opened m fs = search calm depth 12

  pub Calm-write : (m : Twrite) → Calm none (handle_write b m)
  unfolding handle_write write_fid
  Calm-write m = search (calm, Calm-write_xattr, Calm-write_opened) depth 12

  pub Calm-fsync : (m : Tfsync) → Calm none (handle_fsync b m)
  unfolding handle_fsync fsync_opened
  Calm-fsync m = search calm depth 12

  Calm-simple :
      (m : Treaddir) (fs : Fid) (count : ℕ) (d : Call b.World (List Dirent))
      → Calm (some (m.fid, fs.node)) (readdir_simple b m fs count d)
  unfolding readdir_simple listing fetch
  Calm-simple m fs count d = search calm depth 12

  Calm-by :
      (m : Treaddir) (fs : Fid) (count : ℕ) (raw : Option (ℕ → ℕ → Call b.World Filled))
      (d : Option (Call b.World (List Dirent))) (k : Handler b.World Reply)
      → Calm (some (m.fid, fs.node)) k
      → Calm (some (m.fid, fs.node)) (readdir_by b m fs count raw d k)
  unfolding readdir_by fill_pooled
  Calm-by m fs count (some raw) d k s = search calm depth 12
  Calm-by m fs count none (some d) k s = Calm-simple m fs count d
  Calm-by m fs count none none k s = s

  Calm-readdir_opened :
      (m : Treaddir) (count : ℕ) {o : Option (ℕ × ℕ)} → Calm o (readdir_opened b m count)
  unfolding readdir_opened
  Calm-readdir_opened m count = search (calm, Calm-by) depth 12

  pub Calm-readdir : (m : Treaddir) → Calm none (handle_readdir b m)
  unfolding handle_readdir
  Calm-readdir m = search (calm, Calm-readdir_opened) depth 12

  pub Calm-getattr : (m : Tgetattr) → Calm none (handle_getattr b m)
  unfolding handle_getattr
  Calm-getattr m = search calm depth 12

  pub Calm-setattr : (m : Tsetattr) → Calm none (handle_setattr b m)
  unfolding handle_setattr
  Calm-setattr m = search calm depth 12

  pub Calm-u_stat : (m : Tstat) → Calm none (handle_u_stat b m)
  unfolding handle_u_stat
  Calm-u_stat m = search calm depth 12

  pub Calm-readlink : (m : Treadlink) → Calm none (handle_readlink b m)
  unfolding handle_readlink
  Calm-readlink m = search calm depth 12

  pub Calm-statfs : (m : Tstatfs) → Calm none (handle_statfs b m)
  unfolding handle_statfs
  Calm-statfs m = search calm depth 12

  pub Calm-lock : (m : Tlock) → Calm none (handle_lock b m)
  unfolding handle_lock lock_opened
  Calm-lock m = search calm depth 12

  pub Calm-getlock : (m : Tgetlock) → Calm none (handle_getlock b m)
  unfolding handle_getlock get_lock_opened
  Calm-getlock m = search calm depth 12

  pub Calm-mkdir : (m : Tmkdir) → Calm none (handle_mkdir b m)
  unfolding handle_mkdir
  Calm-mkdir m = search (calm, same_register) depth 12

  pub Calm-symlink : (m : Tsymlink) → Calm none (handle_symlink b m)
  unfolding handle_symlink
  Calm-symlink m = search (calm, same_register) depth 12

  pub Calm-link : (m : Tlink) → Calm none (handle_link b m)
  unfolding handle_link
  Calm-link m = search (calm, same_register) depth 12

  pub Calm-mknod : (m : Tmknod) → Calm none (handle_mknod b m)
  unfolding handle_mknod
  Calm-mknod m = search (calm, same_register) depth 12

  pub Calm-unlinkat : (m : Tunlinkat) → Calm none (handle_unlinkat b m)
  unfolding handle_unlinkat
  Calm-unlinkat m = search (calm, Calm-unregister) depth 12

  pub Calm-renameat : (m : Trenameat) → Calm none (handle_renameat b m)
  unfolding handle_renameat
  Calm-renameat m = search (calm, Calm-move) depth 12

  pub Calm-rename : (m : Trename) → Calm none (handle_rename b m)
  unfolding handle_rename
  Calm-rename m = search (calm, Calm-add_to) depth 20

  Calm-start_write :
      (m : Txattrcreate) (fs : Fid) (w : Option ℕ)
      → Calm (some (m.fid, fs.node)) (start_write b m fs w)
  unfolding start_write to_xattr_write
  Calm-start_write m fs w = search calm depth 12

  Calm-can_commit : (size node : ℕ) {o : Option (ℕ × ℕ)} → Calm o (can_commit b size node)
  unfolding can_commit
  Calm-can_commit size node = search calm depth 12

  Calm-xattrcreate_by :
      (raw : Option (Bytes → ℕ → ℕ → Call b.World (Option ℕ))) (m : Txattrcreate) (fs : Fid)
      → Calm (some (m.fid, fs.node)) (xattrcreate_by b raw m fs)
  unfolding xattrcreate_by
  Calm-xattrcreate_by (some raw) m fs = search (calm, Calm-start_write) depth 12
  Calm-xattrcreate_by none m fs = search (calm, Calm-start_write, Calm-can_commit) depth 12

  pub Calm-xattrcreate : (m : Txattrcreate) → Calm none (handle_xattrcreate b m)
  unfolding handle_xattrcreate
  Calm-xattrcreate m = search (calm, Calm-xattrcreate_by) depth 12
