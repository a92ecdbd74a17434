-- ===== src/Server/FidTable/Opened.antt =====
-- server/fid.go: a fid after it is opened.
use ninep.Prelude.{
  ℕ, ◌≡◌, refl, ◌∙◌, List, [], ◌∷◌, Bool, true, false, not, ◌&&◌, Option, none, some, ◌==◌,
  if◌then◌else◌, arith,
}
use ninep.Server.Fid.{FidState, opened}
use ninep.Server.FidTable.{
  FidTable, is_allocated, get, write, clunk, clunk_all, mark_opened_with_handle, update_and_open,
  Call, adds, clunks, clunks_all, sets_path, updates, marks_opened, updates_and_opens, after, run,
}
use ninep.Server.FidTable.Cases.{
  add_cases, set_path_cases, update_cases, mark_opened_cases, update_and_open_cases,
}
use ninep.Server.FidTable.Lookup.{get-write, get-delete-other}

module _ {Node Handle : Type 0} where
  -- Does the call leave `fid` in the table?
  unfoldable pub keeps : ℕ → Call Node Handle → Bool
  keeps fid (adds f fs) = true
  keeps fid (clunks f) = not (fid == f)
  keeps fid clunks_all = false
  keeps fid (sets_path f p) = true
  keeps fid (updates f node p) = true
  keeps fid (marks_opened f h) = true
  keeps fid (updates_and_opens f node h) = true

  unfoldable pub all_keep : ℕ → List (Call Node Handle) → Bool
  unfolding keeps
  all_keep fid [] = true
  all_keep fid (c ∷ cs) = keeps fid c && all_keep fid cs

  -- The fid has a state that is no longer allocated, with the handle `h`.
  pub record Opened (ft : FidTable Node Handle) (fid : ℕ) (h : Option Handle) : Type 0 where
    pub found : FidState Node Handle
    pub gets : get ft fid ≡ some found
    pub used : is_allocated found.state ≡ false
    pub handle : found.handle ≡ h

  write-Opened :
      (ft : FidTable Node Handle) (fid f : ℕ) (h : Option Handle) (old new : FidState Node Handle)
      → get ft f ≡ some old
      → (is_allocated old.state ≡ false
          → (is_allocated new.state ≡ false) × (new.handle ≡ old.handle))
      → Opened ft fid h
      → Opened (write f new ft) fid h
  write-Opened ft fid f h old new e same o = record {
    found = if fid == f then new else o.found;
    gets = ground (arith, get-write ft f fid old new e, o.gets);
    used = ground (arith, o.gets, o.used, same);
    handle = ground (arith, o.gets, o.used, o.handle, same);
  }

  add-Opened :
      (ft : FidTable Node Handle) (fid f : ℕ) (h : Option Handle) (fs : FidState Node Handle)
      → get ft f ≡ none
      → Opened ft fid h
      → Opened ((f, fs) ∷ ft) fid h
  unfolding get
  add-Opened ft fid f h fs e o = record {
    found = o.found;
    gets = ground (arith, o.gets);
    used = o.used;
    handle = o.handle;
  }

  after-Opened :
      (max_fids : ℕ) (ft : FidTable Node Handle) (c : Call Node Handle) (fid : ℕ)
      (h : Option Handle)
      → keeps fid c ≡ true
      → Opened ft fid h
      → Opened (after max_fids ft c) fid h
  unfolding after clunk clunk_all keeps is_allocated
  after-Opened max_fids ft (adds f fs) fid h k o =
      add_cases ft f (λ r. Opened r.1 fid h) fs max_fids (λ a b. o) (λ old e. o)
        (λ room e. add-Opened ft fid f h fs e o)
  after-Opened max_fids ft (clunks f) fid h k o = record {
    found = o.found;
    gets = get-delete-other ft f fid (ground arith) ∙ o.gets;
    used = o.used;
    handle = o.handle;
  }
  after-Opened max_fids ft clunks_all fid h k o = cc
  after-Opened max_fids ft (sets_path f p) fid h k o =
      set_path_cases ft f (λ t. Opened t fid h) p (λ e. o)
        (λ fs e. write-Opened ft fid f h fs _ e (λ u. (u, refl)) o)
  after-Opened max_fids ft (updates f node p) fid h k o =
      update_cases ft f (λ r. Opened r.1 fid h) node p (λ e. o)
        (λ fs e. write-Opened ft fid f h fs _ e (λ u. (u, refl)) o)
  after-Opened max_fids ft (marks_opened f new) fid h k o =
      mark_opened_cases ft f (λ r. Opened r.1 fid h) new (λ e. o) (λ fs e u. o)
        (λ fs e u. write-Opened ft fid f h fs _ e (λ v. absurd (ground arith)) o)
  after-Opened max_fids ft (updates_and_opens f node new) fid h k o =
      update_and_open_cases ft f (λ r. Opened r.1 fid h) node new (λ e. o) (λ fs e u. o)
        (λ fs e u. write-Opened ft fid f h fs _ e (λ v. absurd (ground arith)) o)

  run-Opened :
      (max_fids : ℕ) (ft : FidTable Node Handle) (cs : List (Call Node Handle)) (fid : ℕ)
      (h : Option Handle)
      → all_keep fid cs ≡ true
      → Opened ft fid h
      → Opened (run max_fids ft cs) fid h
  unfolding run all_keep
  run-Opened max_fids ft [] fid h k o = o
  run-Opened max_fids ft (c ∷ cs) fid h k o =
      run-Opened max_fids (after max_fids ft c) cs fid h (ground arith)
        (after-Opened max_fids ft c fid h (ground arith) o)

  Opened-refuses :
      (ft : FidTable Node Handle) (fid : ℕ) (h new : Option Handle) (node : Node)
      → Opened ft fid h
      → (mark_opened_with_handle ft fid new ≡ (false, ft))
        × (update_and_open ft fid node new ≡ (none, ft))
  Opened-refuses ft fid h new node o = (
    mark_opened_cases ft fid (λ r. r ≡ (false, ft)) new (λ e. refl) (λ fs e u. refl)
        (λ fs e u. absurd (ground (arith, o.gets, o.used))),
    update_and_open_cases ft fid (λ r. r ≡ (none, ft)) node new (λ e. refl) (λ fs e u. refl)
        (λ fs e u. absurd (ground (arith, o.gets, o.used))),
  )

  mark-Opened :
      (ft : FidTable Node Handle) (fid : ℕ) (h : Option Handle)
      → (mark_opened_with_handle ft fid h).0 ≡ true
      → Opened (mark_opened_with_handle ft fid h).1 fid h
  unfolding is_allocated
  mark-Opened ft fid h =
      mark_opened_cases ft fid (λ r. r.0 ≡ true → Opened r.1 fid h) h (λ e t. cc) (λ fs e u t. cc)
        (λ fs e u t. record {
          found = record fs { state = opened; handle = h };
          gets =
              ground (arith, get-write ft fid fid fs (record fs { state = opened; handle = h }) e);
          used = refl;
          handle = refl;
        })

-- After markOpenedWithHandle has said yes for a fid, and whatever calls follow that do not remove the
-- fid: the fid has the handle that it was opened with, and markOpenedWithHandle and updateAndOpen both
-- refuse and leave the table as it is.
pub opened_once :
    (Node Handle : Type 0) (max_fids : ℕ) (ft : FidTable Node Handle) (fid : ℕ) (h : Option Handle)
    (cs : List (Call Node Handle)) (node : Node) (new : Option Handle)
    → (mark_opened_with_handle ft fid h).0 ≡ true
    → all_keep fid cs ≡ true
    → let end : FidTable Node Handle = run max_fids (mark_opened_with_handle ft fid h).1 cs in
      ((found : FidState Node Handle) × (get end fid ≡ some found) × (found.handle ≡ h))
      × (mark_opened_with_handle end fid new ≡ (false, end))
      × (update_and_open end fid node new ≡ (none, end))
opened_once Node Handle max_fids ft fid h cs node new e k =
    let o =
      run-Opened max_fids (mark_opened_with_handle ft fid h).1 cs fid h k
        (mark-Opened ft fid h e) in
    let refuses = Opened-refuses _ fid h new node o in
    ((o.found, o.gets, o.handle), refuses.0, refuses.1)
