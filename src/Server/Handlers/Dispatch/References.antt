-- ===== src/Server/Handlers/Dispatch/References.antt =====
-- The whole of dispatch and the references on the inodes.
use ninep.Prelude.{ℕ, ◌≡◌, refl, Bool, true, false, Option, none}
use ninep.Proto.Messages.{BaseMessage, tattach, twalk, tclunk, tremove, tread, twrite}
use ninep.P9l.Messages.{
  Message, shared, tlopen, tgetattr, tsetattr, treaddir, tlcreate, tmkdir, tsymlink, tlink, tmknod,
  treadlink, tstatfs, tfsync, tunlinkat, trenameat, trename, tlock, tgetlock, txattrwalk,
  txattrcreate,
}
use ninep.Server.Conn.{Backend, Conn, Outcome, fails, Handler}
use ninep.Server.Conn.Calm.{Same, Calm-fail}
use ninep.Server.Conn.Sound.{Counted, Settled, kept, undone, Sound, Owing-same, Sound-Calm}
use ninep.Server.Handlers.References.Plain.{
  Calm-read, Calm-write, Calm-fsync, Calm-readdir, Calm-getattr, Calm-setattr, Calm-u_stat,
  Calm-readlink, Calm-statfs, Calm-lock, Calm-getlock, Calm-mkdir, Calm-symlink, Calm-link,
  Calm-mknod, Calm-unlinkat, Calm-renameat, Calm-rename, Calm-xattrcreate,
}
use ninep.Server.Handlers.References.Walk.{Sound-attach, Sound-walk}
use ninep.Server.Handlers.References.Open.{
  Calm-lopen, Calm-u_open, Sound-lcreate, Sound-u_create, Sound-xattrwalk,
}
use ninep.Server.Handlers.References.Clunk.{Counted-clunk, Counted-remove}
use ninep.Server.Handlers.Dispatch.{
  Request, message, u_open, u_create, u_stat, u_wstat, dispatch_shared, dispatch_l, dispatch,
}

unfoldable pub frees_base : BaseMessage → Bool
frees_base (tclunk m) = true
frees_base (tremove m) = true
frees_base m = false

unfoldable pub frees_message : Message → Bool
unfolding frees_base
frees_message (shared m) = frees_base m
frees_message m = false

-- Tclunk and Tremove take their fid away whatever they answer.
unfoldable pub frees_fid : Request → Bool
unfolding frees_message
frees_fid (message m) = frees_message m
frees_fid r = false

module _ (b : Backend) where
  open b use {World, inode}

  Sound-shared : (m : BaseMessage) → frees_base m ≡ false → Sound inode none (dispatch_shared b m)
  unfolding dispatch_shared frees_base
  Sound-shared (tattach m) h = Sound-attach b m
  Sound-shared (twalk m) h = Sound-walk b m
  Sound-shared (tclunk m) h = cc
  Sound-shared (tremove m) h = cc
  Sound-shared (tread m) h = Sound-Calm inode (Calm-read b m)
  Sound-shared (twrite m) h = Sound-Calm inode (Calm-write b m)
  Sound-shared m h = Sound-Calm inode (Calm-fail _)

  Sound-l : (m : Message) → frees_message m ≡ false → Sound inode none (dispatch_l b m)
  unfolding dispatch_l frees_message
  Sound-l (shared m) h = Sound-shared m h
  Sound-l (tlopen m) h = Sound-Calm inode (Calm-lopen b m)
  Sound-l (tgetattr m) h = Sound-Calm inode (Calm-getattr b m)
  Sound-l (tsetattr m) h = Sound-Calm inode (Calm-setattr b m)
  Sound-l (treaddir m) h = Sound-Calm inode (Calm-readdir b m)
  Sound-l (tlcreate m) h = Sound-lcreate b m
  Sound-l (tmkdir m) h = Sound-Calm inode (Calm-mkdir b m)
  Sound-l (tsymlink m) h = Sound-Calm inode (Calm-symlink b m)
  Sound-l (tlink m) h = Sound-Calm inode (Calm-link b m)
  Sound-l (tmknod m) h = Sound-Calm inode (Calm-mknod b m)
  Sound-l (treadlink m) h = Sound-Calm inode (Calm-readlink b m)
  Sound-l (tstatfs m) h = Sound-Calm inode (Calm-statfs b m)
  Sound-l (tfsync m) h = Sound-Calm inode (Calm-fsync b m)
  Sound-l (tunlinkat m) h = Sound-Calm inode (Calm-unlinkat b m)
  Sound-l (trenameat m) h = Sound-Calm inode (Calm-renameat b m)
  Sound-l (trename m) h = Sound-Calm inode (Calm-rename b m)
  Sound-l (tlock m) h = Sound-Calm inode (Calm-lock b m)
  Sound-l (tgetlock m) h = Sound-Calm inode (Calm-getlock b m)
  Sound-l (txattrwalk m) h = Sound-xattrwalk b m
  Sound-l (txattrcreate m) h = Sound-Calm inode (Calm-xattrcreate b m)
  Sound-l m h = Sound-Calm inode (Calm-fail _)

  pub Sound-dispatch : (r : Request) → frees_fid r ≡ false → Sound inode none (dispatch b r)
  unfolding dispatch frees_fid
  Sound-dispatch (message m) h = Sound-l m h
  Sound-dispatch (u_open m) h = Sound-Calm inode (Calm-u_open b m)
  Sound-dispatch (u_create m) h = Sound-u_create b m
  Sound-dispatch (u_stat m) h = Sound-Calm inode (Calm-u_stat b m)
  Sound-dispatch (u_wstat m) h = Sound-Calm inode (Calm-fail _)

  Settled-Counted :
      {A : Type 0} {c : Conn World} {r : Outcome A × Conn World}
      → Counted inode c
      → Settled inode c r
      → Counted inode r.1
  Settled-Counted t (kept a d u) = u
  Settled-Counted t (undone e d s) = Owing-same inode s t

  Sound-Counted :
      {A : Type 0} {h : Handler World A} (c : Conn World)
      → Sound inode none h
      → Counted inode c
      → Counted inode (h c).1
  Sound-Counted c s t = Settled-Counted t (s.settles c tt t)

  Counted-shared :
      (m : BaseMessage) (c : Conn World) → Counted inode c → Counted inode (dispatch_shared b m c).1
  unfolding frees_base dispatch_shared
  Counted-shared (tclunk m) c t = Counted-clunk b m c t
  Counted-shared (tremove m) c t = Counted-remove b m c t
  Counted-shared m c t = Sound-Counted c (Sound-shared m refl) t

  Counted-l : (m : Message) (c : Conn World) → Counted inode c → Counted inode (dispatch_l b m c).1
  unfolding frees_message dispatch_l
  Counted-l (shared m) c t = Counted-shared m c t
  Counted-l m c t = Sound-Counted c (Sound-l m refl) t

  pub Counted-dispatch :
      (r : Request) (c : Conn World) → Counted inode c → Counted inode (dispatch b r c).1
  unfolding frees_fid dispatch
  Counted-dispatch (message m) c t = Counted-l m c t
  Counted-dispatch r c t = Sound-Counted c (Sound-dispatch r refl) t

pub settled-undone :
    {World A : Type 0} {inode : ℕ → Option ℕ} {c : Conn World} {r : Outcome A × Conn World} {e : ℕ}
    → Settled inode c r
    → r.0 ≡ fails e
    → Same c r.1
settled-undone (kept a d t) h = cc
settled-undone (undone e d s) h = s
