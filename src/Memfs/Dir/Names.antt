-- ===== src/Memfs/Dir/Names.antt =====
-- The children of a directory in server/inode.go, as the calls of server/memfs/ change them: a finite
-- map from names.
use ninep.Prelude.{
  ℕ, ◌≡◌, refl, sym, ap, ◌∙◌, [], ◌∷◌, Bool, true, false, none, some, inl, inr, Bool-cases,
  if◌then◌else◌, arith,
}
use ninep.Proto.Base.{Bytes}
use ninep.Server.Names.{same, same_refl, same→≡}
use ninep.Server.Inode.{Children, find_child, delete_name, put_child}

-- Two different names are not both the same as a third.
not_both :
    (n name other : Bytes) → same n name ≡ false → same n other ≡ true → same name other ≡ true → ⊥
not_both n name other differ hn hm =
    let e = same→≡ n other hn ∙ sym (same→≡ name other hm) in
    let alike = ap (λ x. same n x) (sym e) ∙ same_refl n in ground arith

flip : (xs ys : Bytes) → same xs ys ≡ false → same ys xs ≡ false
flip xs ys h = elim (Bool-cases (same ys xs)) [
  | inl alike ↦ absurd (not_both xs ys xs h (same_refl xs) alike)
  | inr differ ↦ differ
]

-- No name stands twice.
unfoldable pub IsMap : Children → Type 0
IsMap [] = Unit
IsMap ((n, i) ∷ cs) = (find_child cs n ≡ none) × IsMap cs

-- Two tests that are not both true commute.
apart {ℓ} :
    {A : Type ℓ} (a b x : A) (p q : Bool)
    → (p ≡ true → q ≡ true → ⊥)
    → (if p then a else if q then b else x) ≡ (if q then b else if p then a else x)
apart a b x true true h = absurd (h refl refl)
apart a b x true false h = refl
apart a b x false q h = refl

pub find_child-put_child :
    (name : Bytes) (i : ℕ) (cs : Children) (other : Bytes)
    → (find_child (put_child name i cs) other
        ≡ (if same name other then some i else find_child cs other))
unfolding find_child put_child
find_child-put_child name i [] other = refl
find_child-put_child name i ((n, c) ∷ cs) other = elim (Bool-cases (same n name)) [
  | inl here ↦
      let e = same→≡ n name here in
      let swap = ap (λ x. same x other) e in rw (here, swap) (ground arith)
  | inr elsewhere ↦
      rw (elsewhere, find_child-put_child name i cs other)
        (apart _ _ _ (same n other) (same name other) (not_both n name other elsewhere))
]

pub find_child-delete_name :
    (name : Bytes) (cs : Children) (other : Bytes)
    → IsMap cs
    → (find_child (delete_name name cs) other
        ≡ (if same name other then none else find_child cs other))
unfolding find_child delete_name IsMap
find_child-delete_name name [] other h = ground arith
find_child-delete_name name ((n, c) ∷ cs) other (absent, h) = elim (Bool-cases (same n name)) [
  | inl here ↦
      let e = same→≡ n name here in
      rw here (elim (Bool-cases (same name other)) [
        | inl it ↦ rw it (ap (find_child cs) (sym (e ∙ same→≡ name other it)) ∙ absent)
        | inr not_it ↦ let swap = ap (λ x. same x other) e ∙ not_it in rw (not_it, swap) refl
      ])
  | inr elsewhere ↦
      rw (elsewhere, find_child-delete_name name cs other h)
        (apart _ _ _ (same n other) (same name other) (not_both n name other elsewhere))
]

pub IsMap-put_child :
    (name : Bytes) (i : ℕ) (cs : Children) → IsMap cs → IsMap (put_child name i cs)
unfolding put_child IsMap find_child
IsMap-put_child name i [] h = (refl, tt)
IsMap-put_child name i ((n, c) ∷ cs) (absent, h) = elim (Bool-cases (same n name)) [
  | inl here ↦ rw here (absent, h)
  | inr elsewhere ↦ rw elsewhere (
      let e = find_child-put_child name i cs n in
      let no : same name n ≡ false = flip n name elsewhere in
      (
        e ∙ ap (λ b. if b then some i else find_child cs n) no ∙ absent,
        IsMap-put_child name i cs h,
      ))
]

pub IsMap-delete_name : (name : Bytes) (cs : Children) → IsMap cs → IsMap (delete_name name cs)
unfolding delete_name IsMap
IsMap-delete_name name [] h = tt
IsMap-delete_name name ((n, c) ∷ cs) (absent, h) = elim (Bool-cases (same n name)) [
  | inl here ↦ rw here h
  | inr elsewhere ↦ rw elsewhere (
      let e = find_child-delete_name name cs n h in
      let no : same name n ≡ false = flip n name elsewhere in
      (e ∙ ap (λ b. if b then none else find_child cs n) no ∙ absent, IsMap-delete_name name cs h))
]
