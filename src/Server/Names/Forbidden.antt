-- ===== src/Server/Names/Forbidden.antt =====
-- server/dispatch.go and server/bridge.go: the names that no node may see, said without the code.
use ninep.Prelude.{ℕ, ◌≡◌, refl, List, [], ◌∷◌, true, false, inl, inr, ◌⊎◌, arith}
use ninep.Proto.Base.{Bytes}
use ninep.Server.Names.{contains_separator, validate_path_element, valid_name, all_valid}

-- Some member of a list has the property.
abbrev pub Any {ℓ} : {A : Type ℓ} → (A → Type 0) → List A → Type 0
Any P [] = ⊥
Any P (x ∷ xs) = P x ⊎ Any P xs

-- The bytes "/" and NUL.
abbrev Separates : ℕ → Type 0
Separates x = (x ≡ 47) ⊎ (x ≡ 0)

-- A name that is empty, or has a slash or a zero byte anywhere.
abbrev pub IsBroken : Bytes → Type 0
IsBroken name = (name ≡ []) ⊎ Any Separates name

-- The same, or "." or "..".
abbrev pub IsForbidden : Bytes → Type 0
IsForbidden name = IsBroken name ⊎ (name ≡ 46 ∷ []) ⊎ (name ≡ 46 ∷ 46 ∷ [])

separated : (name : Bytes) → Any Separates name → contains_separator name ≡ true
unfolding contains_separator
separated [] h = absurd h
separated (b ∷ bs) (inl (inl e)) = ground arith
separated (b ∷ bs) (inl (inr e)) = ground arith
separated (b ∷ bs) (inr h) = ground (arith, separated bs h)

broken_lem : (name : Bytes) → IsBroken name → validate_path_element name ≡ false
unfolding validate_path_element contains_separator
broken_lem name (inl e) = rw e refl
broken_lem [] (inr h) = refl
broken_lem (b ∷ bs) (inr h) = let s = separated (b ∷ bs) h in ground arith

pub valid_name-IsForbidden : (name : Bytes) → IsForbidden name → valid_name name ≡ false
unfolding valid_name contains_separator
valid_name-IsForbidden name (inl (inl e)) = rw e refl
valid_name-IsForbidden name (inl (inr h)) = let s = separated name h in ground arith
valid_name-IsForbidden name (inr (inl e)) = rw e refl
valid_name-IsForbidden name (inr (inr e)) = rw e refl

pub all_valid-IsBroken : (names : List Bytes) → Any IsBroken names → all_valid names ≡ false
unfolding all_valid
all_valid-IsBroken [] h = absurd h
all_valid-IsBroken (n ∷ ns) (inl h) = let e = broken_lem n h in ground arith
all_valid-IsBroken (n ∷ ns) (inr h) = let e = all_valid-IsBroken ns h in ground arith
