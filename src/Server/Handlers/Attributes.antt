-- ===== src/Server/Handlers/Attributes.antt =====
-- server/bridge.go: handleGetattr, handleSetattr, handleUStat, handleReadlink, handleStatfs, handleLock
-- and handleGetlock.
use ninep.Prelude.{ℕ, ◌+◌, ◌%◌, ◌^◌, ◌||◌, [], ◌∷◌, ◌==◌, if◌then◌else◌}
use ninep.Proto.Base.{Bytes}
use ninep.Proto.Types.{Qid, Attr}
use ninep.P9l.Open.{Tstatfs}
use ninep.P9l.Rename.{Treadlink}
use ninep.P9l.Attributes.{Tgetattr, Tsetattr}
use ninep.P9l.Lock.{Tlock, Tgetlock}
use ninep.P9l.Messages.{rgetattr, rsetattr, rreadlink, rstatfs, rlock, rgetlock}
use ninep.P9u.Open.{Tstat}
use ninep.P9u.Stat.{Stat}
use ninep.Path.{base}
use ninep.Server.Errno.{ebadf, enosys}
use ninep.Server.Names.{is_empty, same, slash, dot}
use ninep.Server.Fid.{opened}
use ninep.Server.Conn.{Backend, Reply, reply, rstat, Handler, give, ◌>>=◌, ◌>>◌, guard, need, ask}
use ninep.Server.Conn.Run.{Fid, call, get_fid, with_io, is_state}
use ninep.Server.Handlers.Io.{of_handle, or_node}

-- proto.AttrAll
abbrev pub attr_all : ℕ
attr_all = 0x3fff

-- `switch qid.Type`: DMDIR and DMSYMLINK, which are above the twelve bits kept
unfoldable pub type_mode : ℕ → ℕ
type_mode t = if t == 0x80 then 0x80000000 else if t == 0x02 then 0x02000000 else 0

unfoldable pub stat_name : Bytes → Bytes
stat_name fid_path =
    let name = base fid_path in
    if is_empty fid_path
      || same fid_path (slash ∷ [])
      || same name (dot ∷ [])
      || same name (slash ∷ [])
    then []
    else name

unfoldable pub stat_from_attr : Bytes → Qid → Attr → Stat
unfolding type_mode stat_name
stat_from_attr fid_path qid attr = record {
  size = 0;
  type = 0;
  dev = 0;
  qid = qid;
  mode = attr.mode % 2 ^ 12 + type_mode qid.type;
  atime = attr.atime_sec % 2 ^ 32;
  mtime = attr.mtime_sec % 2 ^ 32;
  length = attr.size;
  name = stat_name fid_path;
  uid = [];
  gid = [];
  muid = [];
  extension = [];
  n_uid = attr.uid;
  n_gid = attr.gid;
  n_muid = 0;
}

module _ (b : Backend) where
  open b use {World}

  unfoldable pub handle_getattr : Tgetattr → Handler World Reply
  handle_getattr m = do
    fs ← get_fid m.fid
    getattr ← need (b.getattr fs.node) enosys
    attr ← call b (getattr m.request_mask)
    qid ← ask (λ c. b.qid c.world fs.node)
    give (reply (rgetattr (record { attr = record attr { qid = qid } })))

  unfoldable pub handle_setattr : Tsetattr → Handler World Reply
  handle_setattr m = do
    fs ← get_fid m.fid
    setattr ← need (b.setattr fs.node) enosys
    _ ← call b (setattr m.attr)
    give (reply (rsetattr (record {})))

  unfoldable pub handle_u_stat : Tstat → Handler World Reply
  unfolding stat_from_attr
  handle_u_stat m = do
    fs ← get_fid m.fid
    getattr ← need (b.getattr fs.node) enosys
    attr ← call b (getattr attr_all)
    qid ← ask (λ c. b.qid c.world fs.node)
    give (rstat (stat_from_attr fs.path qid attr))

  unfoldable pub handle_readlink : Treadlink → Handler World Reply
  handle_readlink m = do
    fs ← get_fid m.fid
    readlink ← need (b.readlink fs.node) enosys
    target ← call b readlink
    give (reply (rreadlink (record { target = target })))

  unfoldable pub handle_statfs : Tstatfs → Handler World Reply
  handle_statfs m = do
    fs ← get_fid m.fid
    stat_fs ← need (b.stat_fs fs.node) enosys
    stat ← call b stat_fs
    give (reply (rstatfs (record { stat = stat })))

  unfoldable pub lock_opened : Tlock → Fid → Handler World Reply
  lock_opened m fs = do
    lock ← need (or_node (of_handle fs.handle b.lock_handle) (b.lock_node fs.node)) enosys
    status ← call b (lock m)
    give (reply (rlock (record { status = status })))

  unfoldable pub handle_lock : Tlock → Handler World Reply
  unfolding lock_opened
  handle_lock m = do
    fs ← get_fid m.fid
    guard (is_state fs.state opened) ebadf
    with_io b m.fid fs (lock_opened m fs)

  unfoldable pub get_lock_opened : Tgetlock → Fid → Handler World Reply
  get_lock_opened m fs = do
    get_lock ←
        need (or_node (of_handle fs.handle b.get_lock_handle) (b.get_lock_node fs.node)) enosys
    r ← call b (get_lock m)
    give (reply (rgetlock r))

  unfoldable pub handle_getlock : Tgetlock → Handler World Reply
  unfolding get_lock_opened
  handle_getlock m = do
    fs ← get_fid m.fid
    guard (is_state fs.state opened) ebadf
    with_io b m.fid fs (get_lock_opened m fs)
