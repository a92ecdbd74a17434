-- ===== src/Server/FidTable/Refines.antt =====
-- server/fid.go: the table against a function from fids to states.
use ninep.Prelude.{
  ℕ, ◌≡◌, refl, ap, List, [], Bool, true, not, ◌&&◌, Option, none, some, ◌==◌, ltb, leb, length,
  if◌then◌else◌, arith,
}
use ninep.Proto.Base.{Bytes}
use ninep.Server.Fid.{FidState, opened}
use ninep.Server.FidTable.{
  FidTable, is_allocated, get, write, add, clunk, clunk_all, Call, adds, clunks, clunks_all,
  sets_path, updates, marks_opened, updates_and_opens, after, run,
}
use ninep.Server.FidTable.Cases.{
  add_cases, set_path_cases, update_cases, mark_opened_cases, update_and_open_cases,
}
use ninep.Server.FidTable.Lookup.{Distinct, get-write, get-delete}
use ninep.Server.FidTable.Sizes.{run-Inv, empty-Inv}

-- The table as a function.
abbrev pub Fids : Type 0 → Type 0 → Type 0
Fids Node Handle = ℕ → Option (FidState Node Handle)

module _ {Node Handle : Type 0} where
  -- `m` with the state `o` at `fid`.
  abbrev pub set : Fids Node Handle → ℕ → Option (FidState Node Handle) → Fids Node Handle
  set m fid o = λ g. if g == fid then o else m g

  unfoldable pub to_absent :
      Option (FidState Node Handle) → FidState Node Handle → FidState Node Handle
  to_absent none fs = fs
  to_absent (some old) fs = old

  unfoldable pub with_path : Bytes → Option (FidState Node Handle) → Option (FidState Node Handle)
  with_path p none = none
  with_path p (some fs) = some (record fs { path = p })

  unfoldable pub with_node :
      Node → Bytes → Option (FidState Node Handle) → Option (FidState Node Handle)
  with_node node p none = none
  with_node node p (some fs) = some (record fs { node = node; path = p })

  unfoldable pub with_handle :
      Option Handle → Option (FidState Node Handle) → Option (FidState Node Handle)
  with_handle h none = none
  with_handle h (some fs) =
      some (if is_allocated fs.state then record fs { state = opened; handle = h } else fs)

  unfoldable pub with_node_handle :
      Node → Option Handle → Option (FidState Node Handle) → Option (FidState Node Handle)
  with_node_handle node h none = none
  with_node_handle node h (some fs) =
      some (
        if is_allocated fs.state then record fs { node = node; state = opened; handle = h } else fs)

  -- What a call does to the function, where `room` says that one more fid is within the limit.
  unfoldable pub apply : Bool → Fids Node Handle → Call Node Handle → Fids Node Handle
  unfolding to_absent with_path with_node with_handle with_node_handle
  apply room m (adds fid fs) = if room then set m fid (some (to_absent (m fid) fs)) else m
  apply room m (clunks fid) = set m fid none
  apply room m clunks_all = λ g. none
  apply room m (sets_path fid p) = set m fid (with_path p (m fid))
  apply room m (updates fid node p) = set m fid (with_node node p (m fid))
  apply room m (marks_opened fid h) = set m fid (with_handle h (m fid))
  apply room m (updates_and_opens fid node h) = set m fid (with_node_handle node h (m fid))

-- Is there room for one more fid?
abbrev pub has_room : ℕ → ℕ → Bool
has_room max_fids n = not (ltb 0 max_fids && leb max_fids n)

module _ {Node Handle : Type 0} where
  -- A call that leaves the table alone, against a change that gives back the state found.
  set-same :
      (m : Fids Node Handle) (fid g : ℕ) (new o : Option (FidState Node Handle))
      → m fid ≡ o
      → new ≡ o
      → m g ≡ set m fid new g
  set-same m fid g new o e n = ground arith

  write-set :
      (ft : FidTable Node Handle) (fid g : ℕ) (old fs : FidState Node Handle)
      (new : Option (FidState Node Handle))
      → get ft fid ≡ some old
      → new ≡ some fs
      → get (write fid fs ft) g ≡ set (get ft) fid new g
  write-set ft fid g old fs new e n = rw n (get-write ft fid g old fs e)

  add-set :
      (max_fids : ℕ) (ft : FidTable Node Handle) (fid g : ℕ) (fs : FidState Node Handle)
      → get (add ft fid fs max_fids).1 g
        ≡ (if has_room max_fids (length ft)
              then set (get ft) fid (some (to_absent (get ft fid) fs))
              else get ft)
            g
  unfolding get to_absent
  add-set max_fids ft fid g fs =
      add_cases ft fid
        (λ r.
          get r.1 g
          ≡ (if has_room max_fids (length ft)
                then set (get ft) fid (some (to_absent (get ft fid) fs))
                else get ft)
              g)
        fs max_fids (λ a b. ground arith) (λ old e. rw e (ground arith))
        (λ room e. rw e (ground arith))

  get-after :
      (max_fids : ℕ) (ft : FidTable Node Handle) (c : Call Node Handle) (g : ℕ)
      → Distinct ft
      → get (after max_fids ft c) g ≡ apply (has_room max_fids (length ft)) (get ft) c g
  unfolding after apply clunk clunk_all get with_path with_node with_handle with_node_handle
  get-after max_fids ft (adds fid fs) g d = add-set max_fids ft fid g fs
  get-after max_fids ft (clunks fid) g d = get-delete ft fid g d
  get-after max_fids ft clunks_all g d = refl
  get-after max_fids ft (sets_path fid p) g d =
      set_path_cases ft fid (λ t. get t g ≡ apply true (get ft) (sets_path fid p) g) p
        (λ e. set-same (get ft) fid g _ _ e (ap (with_path p) e))
        (λ fs e. write-set ft fid g fs _ _ e (ap (with_path p) e))
  get-after max_fids ft (updates fid node p) g d =
      update_cases ft fid (λ r. get r.1 g ≡ apply true (get ft) (updates fid node p) g) node p
        (λ e. set-same (get ft) fid g _ _ e (ap (with_node node p) e))
        (λ fs e. write-set ft fid g fs _ _ e (ap (with_node node p) e))
  get-after max_fids ft (marks_opened fid h) g d =
      mark_opened_cases ft fid (λ r. get r.1 g ≡ apply true (get ft) (marks_opened fid h) g) h
        (λ e. set-same (get ft) fid g _ _ e (ap (with_handle h) e))
        (λ fs e u. set-same (get ft) fid g _ _ e (rw e (rw u refl)))
        (λ fs e u. write-set ft fid g fs _ _ e (rw e (rw u refl)))
  get-after max_fids ft (updates_and_opens fid node h) g d =
      update_and_open_cases ft fid
        (λ r. get r.1 g ≡ apply true (get ft) (updates_and_opens fid node h) g) node h
        (λ e. set-same (get ft) fid g _ _ e (ap (with_node_handle node h) e))
        (λ fs e u. set-same (get ft) fid g _ _ e (rw e (rw u refl)))
        (λ fs e u. write-set ft fid g fs _ _ e (rw e (rw u refl)))

-- After any calls on a new table, a further call does to the states that `get` finds what it says: on
-- its own fid, the whole change of the states that the call allows and nothing on another fid.
pub get-after-run :
    (Node Handle : Type 0) (max_fids : ℕ) (cs : List (Call Node Handle)) (c : Call Node Handle)
    (g : ℕ)
    → let ft : FidTable Node Handle = run max_fids [] cs in
      get (after max_fids ft c) g ≡ apply (has_room max_fids (length ft)) (get ft) c g
get-after-run Node Handle max_fids cs c g =
    get-after max_fids (run max_fids [] cs) c g
      (run-Inv max_fids [] cs (empty-Inv max_fids)).distinct
