-- ===== src/Memfs/Dir/Runs.antt =====
-- Histories of calls on the directories of server/memfs/.
use ninep.Prelude.{
  ℕ, ◌≡◌, refl, sym, ap, ◌∙◌, List, [], ◌∷◌, ◌⊎◌, length, not, ◌&&◌, Option, none, some, ◌==◌, inl,
  inr, Bool-cases, Option-cases, if◌then◌else◌, arith,
}
use mathlib.Core.Path.{subst}
use ninep.Proto.Base.{Bytes}
use ninep.Server.Errno.{enoent, eexist, einval}
use ninep.Server.Names.{same}
use ninep.Server.Inode.{
  Inodes, Children, set_at, find_child, put_child, delete_name, add_child, try_add_child, is_some,
  remove_child_if, remove_if_at,
}
use ninep.Memfs.Dir.{
  Node, Memory, make, attach, add_node, lookup, Result, returned, refused, try_attach, create,
  mkdir, removable, remove_dir, unlink, file, directory, qt_file, qt_dir,
}
use ninep.Memfs.File.{new_file_with_mode}
use ninep.Memfs.Dir.Names.{
  IsMap, find_child-put_child, find_child-delete_name, IsMap-put_child, IsMap-delete_name,
}

-- The directory comes first.
pub data Call : Type 0 where
  adds : ℕ → Bytes → Node → ℕ → Call
  creates makes_dir : ℕ → Bytes → ℕ → Call
  unlinks : ℕ → Bytes → ℕ → Call

pub data Answer : Type 0 where
  added : ℕ → Answer
  made : Result ℕ → Answer
  unlinked : Option ℕ → Answer

unfoldable pub perform : Call → Memory → Answer × Memory
perform (adds d name n type) m = (added m.count, add_node m d name n type)
perform (creates d name mode) m = let r = create m d name mode in (made r.0, r.1)
perform (makes_dir d name mode) m = let r = mkdir m d name mode in (made r.0, r.1)
perform (unlinks d name flags) m = let r = unlink m d name flags in (unlinked r.0, r.1)

unfoldable pub run : List Call → Memory → List Answer × Memory
run [] m = ([], m)
run (c ∷ cs) m = let r = perform c m in let rest = run cs r.1 in (r.0 ∷ rest.0, rest.1)

-- What a directory holds under a name.
abbrev pub Contents : Type 0
Contents = ℕ → Bytes → Option ℕ

abbrev pub put : Contents → ℕ → Bytes → Option ℕ → Contents
put t d name v = λ e other. if e == d && same name other then v else t e other

-- What a call that was answered so does to the contents.
unfoldable pub effect : Call → Answer → Contents → Contents
effect (adds d name n type) (added i) t = put t d name (some i)
effect (creates d name mode) (made (returned i)) t = put t d name (some i)
effect (makes_dir d name mode) (made (returned i)) t = put t d name (some i)
effect (unlinks d name flags) (unlinked none) t = put t d name none
effect _ _ t = t

-- When a new entry is made, and when one is removed.
unfoldable pub Fits : Call → Answer → Contents → Type 0
Fits (creates d name mode) (made (returned i)) t = t d name ≡ none
Fits (makes_dir d name mode) (made (returned i)) t = t d name ≡ none
Fits (creates d name mode) (made (refused e)) t = (e ≡ eexist) × (i : ℕ) × (t d name ≡ some i)
Fits (makes_dir d name mode) (made (refused e)) t = (e ≡ eexist) × (i : ℕ) × (t d name ≡ some i)
Fits (unlinks d name flags) (unlinked none) t = (i : ℕ) × (t d name ≡ some i)
Fits _ _ t = Unit

-- The answers fit the contents, which each one changes.
unfoldable pub Follows : List Call → List Answer → Contents → Contents → Type 0
Follows [] _ t after = after ≡ t
Follows (c ∷ cs) [] t after = ⊥
Follows (c ∷ cs) (a ∷ rest) t after = Fits c a t × Follows cs rest (effect c a t) after

unfoldable pub AreMaps : Memory → Type 0
AreMaps m = (d : ℕ) → IsMap (m.tree.children d)

-- One directory's children changed.
changed :
    (cs : ℕ → Children) (d : ℕ) (ds : Children) (name : Bytes) (v : Option ℕ)
    → ((other : Bytes)
        → find_child ds other ≡ (if same name other then v else find_child (cs d) other))
    → (e : ℕ) (other : Bytes)
    → (find_child (set_at cs d ds e) other
        ≡ (if e == d && same name other then v else find_child (cs e) other))
changed cs d ds name v h e other = elim (Bool-cases (e == d)) [
  | inl it ↦
      let same_d : e ≡ d = ground arith in
      rw it
        (h other ∙ ap (λ i. if same name other then v else find_child (cs i) other) (sym same_d))
  | inr other_d ↦ rw other_d refl
]

IsMap-set_at :
    (cs : ℕ → Children) (d : ℕ) (ds : Children)
    → ((e : ℕ) → IsMap (cs e))
    → IsMap ds
    → (e : ℕ) → IsMap (set_at cs d ds e)
IsMap-set_at cs d ds all one e = elim (Bool-cases (e == d)) [
  | inl it ↦ rw it one
  | inr other_d ↦ rw other_d (all e)
]

-- A call is right if its answer fits, it has the effect that goes with that, and names stay unique.
unfoldable pub IsRight : Call → Answer × Memory → Memory → Type 0
IsRight c r m = Fits c r.0 (lookup m) × (lookup r.1 ≡ effect c r.0 (lookup m)) × AreMaps r.1

put-lookup :
    (m : Memory) (d : ℕ) (name : Bytes) (child : ℕ)
    → lookup (attach m d name child) ≡ put (lookup m) d name (some child)
unfolding lookup attach add_child
put-lookup m d name child = λ j e other.
    changed m.tree.children d (put_child name child (m.tree.children d)) name (some child)
      (find_child-put_child name child (m.tree.children d)) e other j

AreMaps-attach :
    (m : Memory) (d : ℕ) (name : Bytes) (child : ℕ) → AreMaps m → AreMaps (attach m d name child)
unfolding AreMaps attach add_child
AreMaps-attach m d name child maps =
    IsMap-set_at m.tree.children d _ maps (IsMap-put_child name child (m.tree.children d) (maps d))

-- Create and Mkdir make an entry exactly when there is none of that name.
tried :
    (m : Memory) (d : ℕ) (name : Bytes) (child : ℕ)
    → ((lookup m d name ≡ none)
        × (try_attach m d name child ≡ (returned child, attach m d name child)))
      ⊎ ((i : ℕ) × (lookup m d name ≡ some i) × (try_attach m d name child ≡ (refused eexist, m)))
unfolding lookup attach try_attach try_add_child is_some
tried m d name child = elim (Option-cases (find_child (m.tree.children d) name)) [
  | inl absent ↦ inl (absent, rw absent refl)
  | inr (i, there) ↦ inr (i, there, rw there refl)
]

-- What the answer of the check decides.
module _ (t : Inodes) (d c : ℕ) (name : Bytes) (check : ℕ → ℕ → Option ℕ) where
  abbrev checked : Option ℕ → Option ℕ × Inodes
  checked o = elim o as (λ x. Option ℕ × Inodes) [
    | some e ↦ (some e, t)
    | none ↦ (
      none,
      record t {
        children = set_at t.children d (delete_name name (t.children d));
        parent = set_at t.parent c none;
      },
    )
  ]

  remove_if_checked :
      (o : Option ℕ)
      → check c (length (t.children c)) ≡ o
      → remove_if_at (some c) t d name check ≡ checked o
  unfolding remove_if_at
  remove_if_checked o h = ap checked h

-- Unlink removes an entry that is there, or changes nothing.
removed :
    (m : Memory) (d : ℕ) (name : Bytes) (flags : ℕ)
    → ((i : ℕ) × (lookup m d name ≡ some i)
        × ((unlink m d name flags).0 ≡ none)
        × ((unlink m d name flags).1.tree.children
            ≡ set_at m.tree.children d (delete_name name (m.tree.children d))))
      ⊎ ((e : ℕ) × (unlink m d name flags ≡ (some e, m)))
unfolding lookup unlink remove_child_if
removed m d name flags = elim (Bool-cases (not (flags == 0) && not (flags == remove_dir))) [
  | inl wrong ↦ inr (einval, rw wrong refl)
  | inr right ↦ elim (Option-cases (find_child (m.tree.children d) name)) [
    | inl absent ↦ inr (enoent, rw (right, absent) refl)
    | inr (i, there) ↦ elim (Option-cases (removable m flags i (length (m.tree.children i)))) [
      | inr (e, kept) ↦
          let r = remove_if_checked m.tree d i name (removable m flags) (some e) kept in
          inr (e, rw (right, there, r) refl)
      | inl gone ↦
          let r = remove_if_checked m.tree d i name (removable m flags) none gone in
          inl (i, there, rw (right, there, r) refl, rw (right, there, r) refl)
    ]
  ]
]

-- What an entry that was made leaves, for the node `n` of the type `type`.
module _ (m : Memory) (maps : AreMaps m) (d : ℕ) (name : Bytes) (n : Node) (type : ℕ) where
  abbrev with_node : Memory
  with_node = (make m n type).1

  made_lookup : lookup (attach with_node d name m.count) ≡ put (lookup m) d name (some m.count)
  unfolding make lookup
  made_lookup = put-lookup with_node d name m.count

  made_maps : AreMaps (attach with_node d name m.count)
  unfolding make AreMaps
  made_maps = AreMaps-attach with_node d name m.count maps

perform-IsRight : (c : Call) (m : Memory) → AreMaps m → IsRight c (perform c m) m
unfolding perform IsRight Fits effect add_node create mkdir make lookup AreMaps
perform-IsRight (adds d name n type) m maps =
    (tt, made_lookup m maps d name n type, made_maps m maps d name n type)
perform-IsRight (creates d name mode) m maps =
    let n = file (new_file_with_mode [] mode) in
    elim (tried (make m n qt_file).1 d name m.count) [
      | inl (absent, e) ↦
          rw e (absent, made_lookup m maps d name n qt_file, made_maps m maps d name n qt_file)
      | inr (i, there, e) ↦ rw e ((refl, i, there), refl, maps)
    ]
perform-IsRight (makes_dir d name mode) m maps =
    let n = directory (record { mode = mode; uid = 0; gid = 0 }) in
    elim (tried (make m n qt_dir).1 d name m.count) [
      | inl (absent, e) ↦
          rw e (absent, made_lookup m maps d name n qt_dir, made_maps m maps d name n qt_dir)
      | inr (i, there, e) ↦ rw e ((refl, i, there), refl, maps)
    ]
perform-IsRight (unlinks d name flags) m maps = elim (removed m d name flags) [
  | inr (x, e) ↦ rw e (tt, refl, maps)
  | inl (i, there, e, cs) ↦ rw e (
    (i, there),
    ap (λ cs e other. find_child (cs e) other) cs ∙ (λ j e other.
        changed m.tree.children d (delete_name name (m.tree.children d)) name none
          (λ other. find_child-delete_name name (m.tree.children d) other (maps d)) e other j),
    subst (λ cs. (e : ℕ) → IsMap (cs e)) (sym cs)
        (IsMap-set_at m.tree.children d _ maps
          (IsMap-delete_name name (m.tree.children d) (maps d))),
  )
]

-- Starting from directories in which no name stands twice, any calls that add, create and unlink leave
-- them so, and Lookup finds what the answers say: an entry is made only under a name that was free, else
-- the answer is EEXIST; one is removed only if it was there; and nothing else changes.
pub run-Follows :
    (cs : List Call) (m : Memory)
    → AreMaps m
    → Follows cs (run cs m).0 (lookup m) (lookup (run cs m).1) × AreMaps (run cs m).1
unfolding run Follows IsRight
run-Follows [] m maps = (refl, maps)
run-Follows (c ∷ cs) m maps =
    let right = perform-IsRight c m maps in
    let rest = run-Follows cs (perform c m).1 right.2 in
    (
      (
        right.0,
        subst (λ t. Follows cs (run cs (perform c m).1).0 t (lookup (run cs (perform c m).1).1))
            right.1 rest.0,
      ),
      rest.1,
    )
