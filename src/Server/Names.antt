-- ===== src/Server/Names.antt =====
-- The names in requests: validatePathElement of server/dispatch.go and validName of server/bridge.go.
pub mod Forbidden
use ninep.Prelude.{
  ℕ, List, [], ◌∷◌, Bool, true, false, not, ◌&&◌, ◌||◌, ◌==◌, ◌≡◌, refl, ap, ◌∙◌, arith,
}
use ninep.Proto.Base.{Bytes}

abbrev pub slash : ℕ
slash = 47

abbrev pub dot : ℕ
dot = 46

unfoldable pub same : Bytes → Bytes → Bool
same [] [] = true
same [] (b ∷ bs) = false
same (a ∷ rest) [] = false
same (a ∷ rest) (b ∷ bs) = a == b && same rest bs

pub same_refl : (xs : Bytes) → same xs xs ≡ true
unfolding same
same_refl [] = refl
same_refl (x ∷ xs) = ground (arith, same_refl xs)

pub same→≡ : (xs ys : Bytes) → same xs ys ≡ true → xs ≡ ys
unfolding same
same→≡ [] [] h = refl
same→≡ [] (y ∷ ys) h = ground arith
same→≡ (x ∷ xs) [] h = ground arith
same→≡ (x ∷ xs) (y ∷ ys) h =
    let e : x ≡ y = ground arith in
    let rest : same xs ys ≡ true = ground arith in
    ap (λ z. z ∷ xs) e ∙ ap (λ zs. y ∷ zs) (same→≡ xs ys rest)

-- strings.ContainsAny(name, "/\x00")
unfoldable pub contains_separator : Bytes → Bool
contains_separator [] = false
contains_separator (b ∷ bs) = (b == slash || b == 0) || contains_separator bs

unfoldable pub is_empty : Bytes → Bool
is_empty [] = true
is_empty (b ∷ bs) = false

unfoldable pub validate_path_element : Bytes → Bool
unfolding is_empty contains_separator
validate_path_element name = not (is_empty name) && not (contains_separator name)

unfoldable pub valid_name : Bytes → Bool
unfolding is_empty contains_separator same
valid_name name =
    not (is_empty name || same name (dot ∷ []) || same name (dot ∷ dot ∷ []))
    && not (contains_separator name)

-- The loop at the head of handleWalk: every name is checked before anything else is done.
unfoldable pub all_valid : List Bytes → Bool
unfolding validate_path_element
all_valid [] = true
all_valid (name ∷ names) = validate_path_element name && all_valid names
