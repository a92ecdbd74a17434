-- ===== src/Server/Handlers/Dispatch/Names.antt =====
-- server/dispatch.go and server/bridge.go: requests with names that no node may see.
use ninep.Prelude.{
  ℕ, ◌≡◌, refl, List, [], ◌∷◌, Bool, true, false, not, ◌||◌, ◌==◌, length, arith, inl, inr, ◌⊎◌,
}
use ninep.Proto.Base.{Bytes}
use ninep.P9l.Make.{Tlink}
use ninep.P9l.Rename.{Trenameat, Trename}
use ninep.P9u.Open.{Tcreate}
use ninep.Proto.Walk.{Twalk}
use ninep.Proto.Messages.{BaseMessage, twalk}
use ninep.P9l.Messages.{
  Message, shared, tlcreate, tmkdir, tsymlink, tlink, tmknod, tunlinkat, trenameat, trename,
}
use ninep.Server.Errno.{ebadf, enosys, einval}
use ninep.Server.Names.{valid_name, all_valid}
use ninep.Server.Names.Forbidden.{
  Any, IsBroken, IsForbidden, valid_name-IsForbidden, all_valid-IsBroken,
}
use ninep.Server.FidTable.{is_allocated}
use ninep.Server.Conn.{Backend, Conn, Reply, fails, Handler, ◌>>=◌, ◌>>◌, guard}
use ninep.Server.Conn.Run.{Fid, get_fid}
use ninep.Server.Conn.Refuses.{Refuses, guard-false, past_guard, past_need, past_get, Refuses-bind}
use ninep.Server.Handlers.Walk.{handle_walk, walk_names}
use ninep.Server.Handlers.Open.{
  open_flags_from_u_mode, valid_u_create_perm, create_in, handle_lcreate, handle_u_create,
}
use ninep.Server.Handlers.Entries.{
  handle_mkdir, handle_symlink, handle_link, handle_mknod, handle_unlinkat, handle_renameat,
  handle_rename,
}
use ninep.Server.Handlers.Dispatch.{
  Request, message, u_create, dispatch_shared, dispatch_l, dispatch,
}

-- Does the test of the handler find a name that must not be passed on?
unfoldable bad_base : BaseMessage → Bool
bad_base (twalk m) = not (all_valid m.names)
bad_base m = false

unfoldable bad_message : Message → Bool
unfolding bad_base
bad_message (shared m) = bad_base m
bad_message (tlcreate m) = not (valid_name m.name)
bad_message (tmkdir m) = not (valid_name m.name)
bad_message (tsymlink m) = not (valid_name m.name)
bad_message (tlink m) = not (valid_name m.name)
bad_message (tmknod m) = not (valid_name m.name)
bad_message (tunlinkat m) = not (valid_name m.name)
bad_message (trenameat m) = not (valid_name m.old_name) || not (valid_name m.new_name)
bad_message (trename m) = not (valid_name m.name)
bad_message m = false

off : (t : Bool) → not t ≡ true → t ≡ false
off true h = cc
off false h = refl

bad_or : (s t : Bool) → (not s || not t) ≡ true → (s ≡ false) ⊎ (t ≡ false)
bad_or true t h = inr (off t h)
bad_or false t h = inl refl

names_given : (ns : List Bytes) → not (all_valid ns) ≡ true → (length ns == 0) ≡ false
unfolding all_valid
names_given [] h = cc
names_given (n ∷ ns) h = ground arith

module _ (b : Backend) where
  walk-Refuses : (m : Twalk) → not (all_valid m.names) ≡ true → Refuses (handle_walk b m)
  unfolding handle_walk walk_names
  walk-Refuses m h =
      past_get m.fid _
        λ fs. rw (names_given m.names h) (guard-false einval _ (all_valid m.names) (off _ h))

  -- The name is tested right after the directory's fid.
  entry-Refuses :
      (fid : ℕ) (t : Bool) (k : Fid → Handler b.World Reply)
      → not t ≡ true
      → Refuses (get_fid fid >>= λ fs. (guard t einval >> k fs))
  entry-Refuses fid t k h = past_get fid _ λ fs. guard-false einval (k fs) t (off t h)

  create_in-Refuses :
      (fid : ℕ) (name : Bytes) (flags mode gid : ℕ)
      → not (valid_name name) ≡ true
      → Refuses (create_in b fid name flags mode gid)
  unfolding create_in
  create_in-Refuses fid name flags mode gid h = past_get fid _ λ fs.
      past_guard (is_allocated fs.state) ebadf _ (guard-false einval _ (valid_name name) (off _ h))

  link-Refuses : (m : Tlink) → not (valid_name m.name) ≡ true → Refuses (handle_link b m)
  unfolding handle_link
  link-Refuses m h = past_get m.dir_fid _ λ dir. entry-Refuses m.fid (valid_name m.name) _ h

  renameat-Refuses :
      (m : Trenameat)
      → (not (valid_name m.old_name) || not (valid_name m.new_name)) ≡ true
      → Refuses (handle_renameat b m)
  unfolding handle_renameat
  renameat-Refuses m h = past_get m.old_dir_fid _ λ old. past_get m.new_dir_fid _ λ new.
      elim (bad_or _ _ h) [
        | inl e ↦ guard-false einval _ _ e
        | inr e ↦ past_guard (valid_name m.old_name) einval _ (guard-false einval _ _ e)
      ]

  rename-Refuses : (m : Trename) → not (valid_name m.name) ≡ true → Refuses (handle_rename b m)
  unfolding handle_rename
  rename-Refuses m h = past_get m.fid _ λ fs. entry-Refuses m.dir_fid (valid_name m.name) _ h

  u_create-Refuses : (m : Tcreate) → not (valid_name m.name) ≡ true → Refuses (handle_u_create b m)
  unfolding handle_u_create
  u_create-Refuses m h = past_need (open_flags_from_u_mode m.mode) enosys _ λ flags.
      past_guard (valid_u_create_perm m.perm m.extension) enosys _
        (Refuses-bind _ _ (create_in-Refuses m.fid m.name flags m.perm 0 h))

  base-Refuses : (m : BaseMessage) → bad_base m ≡ true → Refuses (dispatch_shared b m)
  unfolding bad_base dispatch_shared
  base-Refuses (twalk m) h = walk-Refuses m h
  base-Refuses m h = cc

  message-Refuses : (m : Message) → bad_message m ≡ true → Refuses (dispatch_l b m)
  unfolding bad_message dispatch_l handle_lcreate handle_mkdir handle_symlink handle_mknod
      handle_unlinkat
  message-Refuses (shared m) h = base-Refuses m h
  message-Refuses (tlcreate m) h =
      Refuses-bind _ _ (create_in-Refuses m.fid m.name m.flags m.mode m.gid h)
  message-Refuses (tmkdir m) h = entry-Refuses m.dir_fid (valid_name m.name) _ h
  message-Refuses (tsymlink m) h = entry-Refuses m.dir_fid (valid_name m.name) _ h
  message-Refuses (tlink m) h = link-Refuses m h
  message-Refuses (tmknod m) h = entry-Refuses m.dir_fid (valid_name m.name) _ h
  message-Refuses (tunlinkat m) h = entry-Refuses m.dir_fid (valid_name m.name) _ h
  message-Refuses (trenameat m) h = renameat-Refuses m h
  message-Refuses (trename m) h = rename-Refuses m h
  message-Refuses m h = cc

-- Does a name of the request break the rule of its handler? Each name of a Twalk may be "." or "..";
-- the name of an entry that is made, removed or renamed may not, nor either name of a Trenameat.
unfoldable CarriesBase : BaseMessage → Type 0
CarriesBase (twalk m) = Any IsBroken m.names
CarriesBase m = ⊥

unfoldable CarriesMessage : Message → Type 0
unfolding CarriesBase
CarriesMessage (shared m) = CarriesBase m
CarriesMessage (tlcreate m) = IsForbidden m.name
CarriesMessage (tmkdir m) = IsForbidden m.name
CarriesMessage (tsymlink m) = IsForbidden m.name
CarriesMessage (tlink m) = IsForbidden m.name
CarriesMessage (tmknod m) = IsForbidden m.name
CarriesMessage (tunlinkat m) = IsForbidden m.name
CarriesMessage (trenameat m) = IsForbidden m.old_name ⊎ IsForbidden m.new_name
CarriesMessage (trename m) = IsForbidden m.name
CarriesMessage m = ⊥

unfoldable pub CarriesBadName : Request → Type 0
unfolding CarriesMessage
CarriesBadName (message m) = CarriesMessage m
CarriesBadName (u_create m) = IsForbidden m.name
CarriesBadName r = ⊥

one_bad : (name : Bytes) → IsForbidden name → not (valid_name name) ≡ true
one_bad name h = let e = valid_name-IsForbidden name h in rw e refl

either_bad :
    (old new : Bytes)
    → IsForbidden old ⊎ IsForbidden new
    → (not (valid_name old) || not (valid_name new)) ≡ true
either_bad old new (inl h) = let e = valid_name-IsForbidden old h in rw e refl
either_bad old new (inr h) = let e = valid_name-IsForbidden new h in ground arith

base_bad : (m : BaseMessage) → CarriesBase m → bad_base m ≡ true
unfolding CarriesBase bad_base
base_bad (twalk m) h = let e = all_valid-IsBroken m.names h in rw e refl
base_bad m h = absurd h

message_bad : (m : Message) → CarriesMessage m → bad_message m ≡ true
unfolding CarriesMessage bad_message
message_bad (shared m) h = base_bad m h
message_bad (tlcreate m) h = one_bad m.name h
message_bad (tmkdir m) h = one_bad m.name h
message_bad (tsymlink m) h = one_bad m.name h
message_bad (tlink m) h = one_bad m.name h
message_bad (tmknod m) h = one_bad m.name h
message_bad (tunlinkat m) h = one_bad m.name h
message_bad (trenameat m) h = either_bad m.old_name m.new_name h
message_bad (trename m) h = one_bad m.name h
message_bad m h = absurd h

-- Take a Twalk of which some name is empty or has a slash or a zero byte; or a Tlcreate, Tcreate,
-- Tmkdir, Tsymlink, Tlink, Tmknod, Tunlinkat, Trenameat or Trename of which a name is so or is "." or
-- "..". It is answered with an error, and nothing at all changes: the fids, the inodes and the world of
-- the nodes are as they were.
pub bad_names_refused :
    (b : Backend) (r : Request) (c : Conn b.World)
    → CarriesBadName r
    → (e : ℕ) × (dispatch b r c ≡ (fails e, c))
unfolding CarriesBadName dispatch
bad_names_refused b (message m) c h = message-Refuses b m (message_bad m h) c
bad_names_refused b (u_create m) c h = u_create-Refuses b m (one_bad m.name h) c
bad_names_refused b r c h = absurd h
