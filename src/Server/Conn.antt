-- ===== src/Server/Conn.antt =====
-- The state that the handlers of server/dispatch.go and server/bridge.go work on, the code behind the
-- interfaces of server/node.go and server/filehandle.go, and the way a handler runs.
pub mod Run
pub mod Refuses
pub mod Bindings
pub mod Calm
pub mod Sound
pub mod Keeps
pub mod Yields
use ninep.Prelude.{
  ℕ, ◌+◌, ◌-◌, ◌%◌, ◌^◌, List, [], ◌∷◌, Bool, true, false, Option, none, some, ltb, ◌||◌, ◌==◌,
  if◌then◌else◌,
}
use ninep.Proto.Base.{Bytes, header_size}
use ninep.Proto.Types.{Qid, Attr, SetAttr, FsStat}
use ninep.Proto.Dirent.{Dirent}
use ninep.Proto.Session.{Tattach}
use ninep.P9l.Lock.{Tlock, Tgetlock, Rgetlock}
use ninep.P9l.Messages.{Message}
use ninep.P9u.Stat.{Stat}
use ninep.Server.Errno.{NodeError}
use ninep.Server.Fid.{FidState}
use ninep.Server.FidTable.{FidTable}
use ninep.Server.Inode.{Inodes}

pub data Answer (A : Type 0) : Type 0 where
  returns : A → Answer A
  errors : NodeError → Answer A

-- A call of code outside the server. It may change the world, which is that code's own state.
abbrev pub Call : Type 0 → Type 0 → Type 0
Call World A = World → Answer A × World

-- What a Read or RawReaddir reports: the number, `none` if it is negative, and the buffer it filled.
abbrev pub Filled : Type 0
Filled = Option ℕ × Bytes

-- The code that implements nodes, handles and xattr writers, which are known by numbers. A capability
-- that is an optional interface is `none` for a node that does not implement it. `qid` is what
-- nodeQID and QID answer, `inode` the inode that a node embeds, `node_of` the way back. The last
-- argument of a reader is the offset, the one before it the length of the buffer.
pub record Backend : Type 1 where
  pub World : Type 0
  pub errno_from_unix : ℕ → ℕ
  pub attacher : Option (Tattach → Call World ℕ)
  pub anames : Option (Bytes → Option ℕ)
  pub root : ℕ
  pub qid : World → ℕ → Qid
  pub inode : ℕ → Option ℕ
  pub node_of : ℕ → ℕ
  pub lookup : ℕ → Option (Bytes → Call World ℕ)
  pub open_node : ℕ → Option (ℕ → Call World (Option ℕ × ℕ))
  pub read_node : ℕ → Option (ℕ → ℕ → Call World Filled)
  pub write_node : ℕ → Option (Bytes → ℕ → Call World ℕ)
  pub getattr : ℕ → Option (ℕ → Call World Attr)
  pub setattr : ℕ → Option (SetAttr → Call World (Unit {0}))
  pub readdir_node : ℕ → Option (Call World (List Dirent))
  pub raw_readdir_node : ℕ → Option (ℕ → ℕ → Call World Filled)
  pub create : ℕ → Option (Bytes → ℕ → ℕ → ℕ → Call World (ℕ × Option ℕ × ℕ))
  pub mkdir : ℕ → Option (Bytes → ℕ → ℕ → Call World ℕ)
  pub symlink : ℕ → Option (Bytes → Bytes → ℕ → Call World ℕ)
  pub link : ℕ → Option (ℕ → Bytes → Call World (Unit {0}))
  pub mknod : ℕ → Option (Bytes → ℕ → ℕ → ℕ → ℕ → Call World ℕ)
  pub readlink : ℕ → Option (Call World Bytes)
  pub unlink : ℕ → Option (Bytes → ℕ → Call World (Unit {0}))
  pub rename : ℕ → Option (Bytes → ℕ → Bytes → Call World (Unit {0}))
  pub stat_fs : ℕ → Option (Call World FsStat)
  pub fsync_node : ℕ → Option (Call World (Unit {0}))
  pub lock_node : ℕ → Option (Tlock → Call World ℕ)
  pub get_lock_node : ℕ → Option (Tgetlock → Call World Rgetlock)
  pub close : ℕ → Option (World → World)
  pub get_xattr : ℕ → Option (Bytes → Call World Bytes)
  pub set_xattr : ℕ → Option (Bytes → Bytes → ℕ → Call World (Unit {0}))
  pub list_xattrs : ℕ → Option (Call World (List Bytes))
  pub remove_xattr : ℕ → Option (Bytes → Call World (Unit {0}))
  pub raw_xattrwalk : ℕ → Option (Bytes → Call World Bytes)
  pub raw_xattrcreate : ℕ → Option (Bytes → ℕ → ℕ → Call World (Option ℕ))
  pub writer_write : ℕ → Bytes → Call World (Option ℕ)
  pub writer_commit : ℕ → Call World (Unit {0})
  pub read_handle : ℕ → Option (ℕ → ℕ → Call World Filled)
  pub write_handle : ℕ → Option (Bytes → ℕ → Call World ℕ)
  pub release_handle : ℕ → Option (World → World)
  pub fsync_handle : ℕ → Option (Call World (Unit {0}))
  pub lock_handle : ℕ → Option (Tlock → Call World ℕ)
  pub get_lock_handle : ℕ → Option (Tgetlock → Call World Rgetlock)
  pub readdir_handle : ℕ → Option (Call World (List Dirent))
  pub raw_readdir_handle : ℕ → Option (ℕ → ℕ → Call World Filled)

-- The part of `conn` that handlers use, with the inodes, and the calls of Close and Release so far.
pub record Conn (World : Type 0) : Type 0 where
  pub msize : ℕ
  pub max_fids : ℕ
  pub fids : FidTable ℕ ℕ
  pub inodes : Inodes
  pub world : World
  pub closed : List ℕ
  pub released : List ℕ

-- A response. `errorMsg` makes an Rlerror or an Rerror of an error number, by the dialect.
pub data Reply : Type 0 where
  error : ℕ → Reply
  reply : Message → Reply
  ropen rcreate : Qid → ℕ → Reply
  rstat : Stat → Reply

-- A step of a handler ends with a value, or makes the handler return an error message.
pub data Outcome (A : Type 0) : Type 0 where
  gives : A → Outcome A
  fails : ℕ → Outcome A

abbrev pub Handler : Type 0 → Type 0 → Type 0
Handler World A = Conn World → Outcome A × Conn World

module _ {World A : Type 0} where
  unfoldable pub give : A → Handler World A
  give a c = (gives a, c)

  unfoldable pub fail : ℕ → Handler World A
  fail e c = (fails e, c)

  unfoldable pub proceed :
      {B : Type 0} → Outcome A × Conn World → (A → Handler World B) → Outcome B × Conn World
  proceed (gives a, c) f = f a c
  proceed (fails e, c) f = (fails e, c)

infixl 5 ◌>>=◌ ◌>>◌
unfoldable pub ◌>>=◌ :
    {World A B : Type 0} → Handler World A → (A → Handler World B) → Handler World B
unfolding proceed
◌>>=◌ h f c = proceed (h c) f

unfoldable pub ◌>>◌ :
    {World B : Type 0} → Handler World (Unit {0}) → Handler World B → Handler World B
unfolding ◌>>=◌
h >> k = h >>= λ _. k

module _ {World : Type 0} where
  -- `if !holds { return c.errorMsg(e) }`
  unfoldable pub guard : Bool → ℕ → Handler World (Unit {0})
  guard true e c = (gives tt, c)
  guard false e c = (fails e, c)

  -- `x, ok := y.(Interface); if !ok { return c.errorMsg(e) }`, and the like for a nil.
  unfoldable pub need : {A : Type 0} → Option A → ℕ → Handler World A
  need (some a) e c = (gives a, c)
  need none e c = (fails e, c)

  unfoldable pub ask : {A : Type 0} → (Conn World → A) → Handler World A
  ask f c = (gives (f c), c)

  unfoldable pub change : (Conn World → Conn World) → Handler World (Unit {0})
  change f c = (gives tt, f c)
