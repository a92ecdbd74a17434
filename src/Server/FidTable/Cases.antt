-- ===== src/Server/FidTable/Cases.antt =====
-- server/fid.go: the branches of each method of the table, as rules to prove a predicate of its result.
use ninep.Prelude.{
  ℕ, ◌<◌, ◌≤◌, ◌≡◌, refl, ◌∷◌, Bool, true, false, ◌&&◌, Option, none, some, ltb, leb, length,
  if◌then◌else◌, arith,
}
use ninep.Proto.Base.{Bytes}
use ninep.Server.Fid.{FidState, opened}
use ninep.Server.FidTable.{
  FidTable, FidError, fid_in_use, fid_limit_exceeded, is_allocated, get, write, add_absent, add,
  set_path_at, set_path, update_at, update, mark_opened_at, mark_opened_with_handle,
  update_and_open_at, update_and_open,
}

-- Both branches of a test.
pub if_cases :
    {A : Type 0} (P : A → Type 0) (b : Bool) {x y : A}
    → (b ≡ true → P x)
    → (b ≡ false → P y)
    → P (if b then x else y)
if_cases P true on_true on_false = on_true refl
if_cases P false on_true on_false = on_false refl

module _ {Node Handle : Type 0} (ft : FidTable Node Handle) (fid : ℕ) where
  add_absent_cases :
      (P : Option FidError × FidTable Node Handle → Type 0) (o : Option (FidState Node Handle))
      (fs : FidState Node Handle)
      → ((old : FidState Node Handle) → o ≡ some old → P (some fid_in_use, ft))
      → (o ≡ none → P (none, (fid, fs) ∷ ft))
      → P (add_absent o ft fid fs)
  unfolding add_absent
  add_absent_cases P none fs in_use inserted = inserted refl
  add_absent_cases P (some old) fs in_use inserted = in_use old refl

  pub add_cases :
      (P : Option FidError × FidTable Node Handle → Type 0) (fs : FidState Node Handle)
      (max_fids : ℕ)
      → (0 < max_fids → max_fids ≤ length ft → P (some fid_limit_exceeded, ft))
      → ((old : FidState Node Handle) → get ft fid ≡ some old → P (some fid_in_use, ft))
      → ((0 < max_fids → length ft < max_fids) → get ft fid ≡ none → P (none, (fid, fs) ∷ ft))
      → P (add ft fid fs max_fids)
  unfolding add
  add_cases P fs max_fids full in_use inserted =
      if_cases P (ltb 0 max_fids && leb max_fids (length ft))
        (λ e. full (ground arith) (ground arith))
        (λ e. add_absent_cases P (get ft fid) fs in_use (inserted (λ h. ground arith)))

  set_path_at_cases :
      (P : FidTable Node Handle → Type 0) (o : Option (FidState Node Handle)) (p : Bytes)
      → (o ≡ none → P ft)
      → ((fs : FidState Node Handle) → o ≡ some fs → P (write fid (record fs { path = p }) ft))
      → P (set_path_at o ft fid p)
  unfolding set_path_at
  set_path_at_cases P none p absent present = absent refl
  set_path_at_cases P (some fs) p absent present = present fs refl

  pub set_path_cases :
      (P : FidTable Node Handle → Type 0) (p : Bytes)
      → (get ft fid ≡ none → P ft)
      → ((fs : FidState Node Handle)
          → get ft fid ≡ some fs
          → P (write fid (record fs { path = p }) ft))
      → P (set_path ft fid p)
  unfolding set_path
  set_path_cases P p = set_path_at_cases P (get ft fid) p

  update_at_cases :
      (P : Option Node × FidTable Node Handle → Type 0) (o : Option (FidState Node Handle))
      (node : Node) (p : Bytes)
      → (o ≡ none → P (none, ft))
      → ((fs : FidState Node Handle)
          → o ≡ some fs
          → P (some fs.node, write fid (record fs { node = node; path = p }) ft))
      → P (update_at o ft fid node p)
  unfolding update_at
  update_at_cases P none node p absent present = absent refl
  update_at_cases P (some fs) node p absent present = present fs refl

  pub update_cases :
      (P : Option Node × FidTable Node Handle → Type 0) (node : Node) (p : Bytes)
      → (get ft fid ≡ none → P (none, ft))
      → ((fs : FidState Node Handle)
          → get ft fid ≡ some fs
          → P (some fs.node, write fid (record fs { node = node; path = p }) ft))
      → P (update ft fid node p)
  unfolding update
  update_cases P node p = update_at_cases P (get ft fid) node p

  mark_opened_at_cases :
      (P : Bool × FidTable Node Handle → Type 0) (o : Option (FidState Node Handle))
      (h : Option Handle)
      → (o ≡ none → P (false, ft))
      → ((fs : FidState Node Handle) → o ≡ some fs → is_allocated fs.state ≡ false → P (false, ft))
      → ((fs : FidState Node Handle)
          → o ≡ some fs
          → is_allocated fs.state ≡ true
          → P (true, write fid (record fs { state = opened; handle = h }) ft))
      → P (mark_opened_at o ft fid h)
  unfolding mark_opened_at
  mark_opened_at_cases P none h absent used fresh = absent refl
  mark_opened_at_cases P (some fs) h absent used fresh =
      if_cases P (is_allocated fs.state) (fresh fs refl) (used fs refl)

  pub mark_opened_cases :
      (P : Bool × FidTable Node Handle → Type 0) (h : Option Handle)
      → (get ft fid ≡ none → P (false, ft))
      → ((fs : FidState Node Handle)
          → get ft fid ≡ some fs
          → is_allocated fs.state ≡ false
          → P (false, ft))
      → ((fs : FidState Node Handle)
          → get ft fid ≡ some fs
          → is_allocated fs.state ≡ true
          → P (true, write fid (record fs { state = opened; handle = h }) ft))
      → P (mark_opened_with_handle ft fid h)
  unfolding mark_opened_with_handle
  mark_opened_cases P h = mark_opened_at_cases P (get ft fid) h

  update_and_open_at_cases :
      (P : Option Node × FidTable Node Handle → Type 0) (o : Option (FidState Node Handle))
      (node : Node) (h : Option Handle)
      → (o ≡ none → P (none, ft))
      → ((fs : FidState Node Handle) → o ≡ some fs → is_allocated fs.state ≡ false → P (none, ft))
      → ((fs : FidState Node Handle)
          → o ≡ some fs
          → is_allocated fs.state ≡ true
          → P (some fs.node, write fid (record fs { node = node; state = opened; handle = h }) ft))
      → P (update_and_open_at o ft fid node h)
  unfolding update_and_open_at
  update_and_open_at_cases P none node h absent used fresh = absent refl
  update_and_open_at_cases P (some fs) node h absent used fresh =
      if_cases P (is_allocated fs.state) (fresh fs refl) (used fs refl)

  pub update_and_open_cases :
      (P : Option Node × FidTable Node Handle → Type 0) (node : Node) (h : Option Handle)
      → (get ft fid ≡ none → P (none, ft))
      → ((fs : FidState Node Handle)
          → get ft fid ≡ some fs
          → is_allocated fs.state ≡ false
          → P (none, ft))
      → ((fs : FidState Node Handle)
          → get ft fid ≡ some fs
          → is_allocated fs.state ≡ true
          → P (some fs.node, write fid (record fs { node = node; state = opened; handle = h }) ft))
      → P (update_and_open ft fid node h)
  unfolding update_and_open
  update_and_open_cases P node h = update_and_open_at_cases P (get ft fid) node h
