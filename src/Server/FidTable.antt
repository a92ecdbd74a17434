-- ===== src/Server/FidTable.antt =====
-- server/fid.go: the table of the fids of a connection. The map is an association list; a state in
-- the table stands for the object that the map points to, so a write to the object is a write to the
-- entry. Each method holds the lock of the table throughout and is one step; setPath alone lets go of
-- it between the lookup and the write, and is taken as one step too, at its lookup.
pub mod Cases
pub mod Lookup
pub mod Refines
pub mod Sizes
pub mod Nodes
pub mod Opened
use ninep.Prelude.{
  ℕ, ◌+◌, ◌<◌, ◌≡◌, List, [], ◌∷◌, Bool, true, false, ◌&&◌, Option, none, some, ◌==◌, ltb, leb,
  length, if◌then◌else◌,
}
use ninep.Proto.Base.{Bytes}
use ninep.Server.Fid.{FidState, FidStatus, allocated, opened, xattr_read, xattr_write}

abbrev pub FidTable : Type 0 → Type 0 → Type 0
FidTable Node Handle = List (ℕ × FidState Node Handle)

pub data FidError : Type 0 where
  fid_in_use fid_limit_exceeded : FidError

unfoldable pub is_allocated : FidStatus → Bool
is_allocated allocated = true
is_allocated opened = false
is_allocated xattr_read = false
is_allocated xattr_write = false

module _ {Node Handle : Type 0} where
  unfoldable pub get : FidTable Node Handle → ℕ → Option (FidState Node Handle)
  get [] fid = none
  get ((f, fs) ∷ ft) fid = let rest = get ft fid in if f == fid then some fs else rest

  -- `delete(ft.fids, fid)`
  unfoldable pub delete : ℕ → FidTable Node Handle → FidTable Node Handle
  delete fid [] = []
  delete fid ((f, fs) ∷ ft) = let rest = delete fid ft in if f == fid then ft else (f, fs) ∷ rest

  -- A write to the fields of the state that the map points to at `fid`.
  unfoldable pub write : ℕ → FidState Node Handle → FidTable Node Handle → FidTable Node Handle
  write fid new [] = []
  write fid new ((f, fs) ∷ ft) =
      let rest = write fid new ft in if f == fid then (f, new) ∷ ft else (f, fs) ∷ rest

  unfoldable pub add_absent :
      Option (FidState Node Handle)
      → FidTable Node Handle
      → ℕ
      → FidState Node Handle
      → Option FidError × FidTable Node Handle
  add_absent (some old) ft fid fs = (some fid_in_use, ft)
  add_absent none ft fid fs = (none, (fid, fs) ∷ ft)

  -- The first part is the error, `none` for nil.
  unfoldable pub add :
      FidTable Node Handle → ℕ → FidState Node Handle → ℕ → Option FidError × FidTable Node Handle
  unfolding add_absent
  add ft fid fs max_fids =
      if ltb 0 max_fids && leb max_fids (length ft)
      then (some fid_limit_exceeded, ft)
      else add_absent (get ft fid) ft fid fs

  -- Removes the entry of `fid` if there is one, and returns its state.
  unfoldable pub clunk :
      FidTable Node Handle → ℕ → Option (FidState Node Handle) × FidTable Node Handle
  clunk ft fid = (get ft fid, delete fid ft)

  unfoldable pub states : FidTable Node Handle → List (FidState Node Handle)
  states [] = []
  states ((f, fs) ∷ ft) = fs ∷ states ft

  unfoldable pub clunk_all :
      FidTable Node Handle → List (FidState Node Handle) × FidTable Node Handle
  clunk_all ft = (states ft, [])

  unfoldable pub set_path_at :
      Option (FidState Node Handle) → FidTable Node Handle → ℕ → Bytes → FidTable Node Handle
  set_path_at none ft fid p = ft
  set_path_at (some fs) ft fid p = write fid (record fs { path = p }) ft

  unfoldable pub set_path : FidTable Node Handle → ℕ → Bytes → FidTable Node Handle
  unfolding set_path_at
  set_path ft fid p = set_path_at (get ft fid) ft fid p

  unfoldable pub update_at :
      Option (FidState Node Handle)
      → FidTable Node Handle
      → ℕ
      → Node
      → Bytes
      → Option Node × FidTable Node Handle
  update_at none ft fid node path = (none, ft)
  update_at (some fs) ft fid node path =
      (some fs.node, write fid (record fs { node = node; path = path }) ft)

  -- `none` is `ok == false`; else the node that was displaced.
  unfoldable pub update :
      FidTable Node Handle → ℕ → Node → Bytes → Option Node × FidTable Node Handle
  unfolding update_at
  update ft fid node path = update_at (get ft fid) ft fid node path

  unfoldable pub mark_opened_at :
      Option (FidState Node Handle)
      → FidTable Node Handle
      → ℕ
      → Option Handle
      → Bool × FidTable Node Handle
  mark_opened_at none ft fid h = (false, ft)
  mark_opened_at (some fs) ft fid h =
      if is_allocated fs.state
      then (true, write fid (record fs { state = opened; handle = h }) ft)
      else (false, ft)

  unfoldable pub mark_opened_with_handle :
      FidTable Node Handle → ℕ → Option Handle → Bool × FidTable Node Handle
  unfolding mark_opened_at
  mark_opened_with_handle ft fid h = mark_opened_at (get ft fid) ft fid h

  unfoldable pub update_and_open_at :
      Option (FidState Node Handle)
      → FidTable Node Handle
      → ℕ
      → Node
      → Option Handle
      → Option Node × FidTable Node Handle
  update_and_open_at none ft fid node h = (none, ft)
  update_and_open_at (some fs) ft fid node h =
      if is_allocated fs.state
      then (some fs.node, write fid (record fs { node = node; state = opened; handle = h }) ft)
      else (none, ft)

  unfoldable pub update_and_open :
      FidTable Node Handle → ℕ → Node → Option Handle → Option Node × FidTable Node Handle
  unfolding update_and_open_at
  update_and_open ft fid node h = update_and_open_at (get ft fid) ft fid node h

-- A call of a method that changes the table.
pub data Call (Node Handle : Type 0) : Type 0 where
  adds : ℕ → FidState Node Handle → Call Node Handle
  clunks : ℕ → Call Node Handle
  clunks_all : Call Node Handle
  sets_path : ℕ → Bytes → Call Node Handle
  updates : ℕ → Node → Bytes → Call Node Handle
  marks_opened : ℕ → Option Handle → Call Node Handle
  updates_and_opens : ℕ → Node → Option Handle → Call Node Handle

module _ {Node Handle : Type 0} where
  -- The table after a call; `max_fids` is the limit of the connection.
  unfoldable pub after : ℕ → FidTable Node Handle → Call Node Handle → FidTable Node Handle
  unfolding add clunk clunk_all set_path update mark_opened_with_handle update_and_open
  after max_fids ft (adds fid fs) = (add ft fid fs max_fids).1
  after max_fids ft (clunks fid) = (clunk ft fid).1
  after max_fids ft clunks_all = (clunk_all ft).1
  after max_fids ft (sets_path fid p) = set_path ft fid p
  after max_fids ft (updates fid node p) = (update ft fid node p).1
  after max_fids ft (marks_opened fid h) = (mark_opened_with_handle ft fid h).1
  after max_fids ft (updates_and_opens fid node h) = (update_and_open ft fid node h).1

  unfoldable pub run : ℕ → FidTable Node Handle → List (Call Node Handle) → FidTable Node Handle
  unfolding after
  run max_fids ft [] = ft
  run max_fids ft (c ∷ cs) = run max_fids (after max_fids ft c) cs
