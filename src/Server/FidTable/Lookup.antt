-- ===== src/Server/FidTable/Lookup.antt =====
-- server/fid.go: how the writes to the table's entries show in `get`, in the fids and in their number.
use ninep.Prelude.{
  ℕ, ◌≤◌, ◌≡◌, refl, List, [], ◌∷◌, false, none, some, ◌==◌, length, count, if◌then◌else◌, arith,
}
use ninep.Server.Fid.{FidState}
use ninep.Server.FidTable.{FidTable, get, delete, write}

module _ {Node Handle : Type 0} where
  unfoldable pub keys : FidTable Node Handle → List ℕ
  keys [] = []
  keys ((f, fs) ∷ ft) = f ∷ keys ft

  -- No fid has two entries.
  pub record Distinct (ft : FidTable Node Handle) : Type 0 where
    pub once : (v : ℕ) → count v (keys ft) ≤ 1

  pub get-write :
      (ft : FidTable Node Handle) (fid g : ℕ) (old new : FidState Node Handle)
      → get ft fid ≡ some old
      → get (write fid new ft) g ≡ (if g == fid then some new else get ft g)
  unfolding get write
  get-write [] fid g old new e = cc
  get-write ((f, fs) ∷ ft) fid g old new e = ground (arith, get-write ft fid g old new)

  pub get-absent :
      (ft : FidTable Node Handle) (fid : ℕ) → count fid (keys ft) ≡ 0 → get ft fid ≡ none
  unfolding get keys
  get-absent [] fid h = refl
  get-absent ((f, fs) ∷ ft) fid h = ground (arith, get-absent ft fid)

  pub absent-get :
      (ft : FidTable Node Handle) (fid : ℕ) → get ft fid ≡ none → count fid (keys ft) ≡ 0
  unfolding get keys
  absent-get [] fid h = refl
  absent-get ((f, fs) ∷ ft) fid h = ground (arith, absent-get ft fid)

  pub get-delete :
      (ft : FidTable Node Handle) (fid g : ℕ)
      → Distinct ft
      → get (delete fid ft) g ≡ (if g == fid then none else get ft g)
  unfolding get delete keys
  get-delete [] fid g d = ground arith
  get-delete ((f, fs) ∷ ft) fid g d = ground (
    arith,
    get-delete ft fid g (record { once = λ v. omega (arith, d.once v) }),
    get-absent ft fid,
    d.once fid,
  )

  pub get-delete-other :
      (ft : FidTable Node Handle) (fid g : ℕ)
      → (g == fid) ≡ false
      → get (delete fid ft) g ≡ get ft g
  unfolding get delete
  get-delete-other [] fid g d = refl
  get-delete-other ((f, fs) ∷ ft) fid g d = ground (arith, get-delete-other ft fid g)

  pub keys-write :
      (ft : FidTable Node Handle) (fid : ℕ) (new : FidState Node Handle)
      → keys (write fid new ft) ≡ keys ft
  unfolding keys write
  keys-write [] fid new = refl
  keys-write ((f, fs) ∷ ft) fid new = ground (arith, keys-write ft fid new)

  pub length-keys : (ft : FidTable Node Handle) → length (keys ft) ≡ length ft
  unfolding keys
  length-keys [] = refl
  length-keys ((f, fs) ∷ ft) = omega (arith, length-keys ft)

  pub length-write :
      (ft : FidTable Node Handle) (fid : ℕ) (new : FidState Node Handle)
      → length (write fid new ft) ≡ length ft
  unfolding write
  length-write [] fid new = refl
  length-write ((f, fs) ∷ ft) fid new = ground (arith, length-write ft fid new)

  pub length-delete : (ft : FidTable Node Handle) (fid : ℕ) → length (delete fid ft) ≤ length ft
  unfolding delete
  length-delete [] fid = omega arith
  length-delete ((f, fs) ∷ ft) fid = ground (arith, length-delete ft fid)

  pub count-keys-delete :
      (ft : FidTable Node Handle) (fid v : ℕ) → count v (keys (delete fid ft)) ≤ count v (keys ft)
  unfolding keys delete
  count-keys-delete [] fid v = omega arith
  count-keys-delete ((f, fs) ∷ ft) fid v = ground (arith, count-keys-delete ft fid v)
