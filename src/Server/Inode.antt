-- ===== src/Server/Inode.antt =====
-- server/inode.go: the tree of inodes and the references that fids hold on them. An inode is known by
-- a number. The locks make each method one step.
use ninep.Prelude.{
  ℕ, ◌+◌, ◌-◌, ◌%◌, ◌^◌, List, [], ◌∷◌, Bool, true, false, not, Option, none, some, ◌==◌, length,
  if◌then◌else◌,
}
use ninep.Proto.Base.{Bytes}
use ninep.Server.Errno.{enoent}
use ninep.Server.Names.{same}

abbrev pub Children : Type 0
Children = List (Bytes × ℕ)

-- The fields of all inodes. `refs` is an int32, kept modulo 2 ^ 32.
pub record Inodes : Type 0 where
  pub parent : ℕ → Option ℕ
  pub children : ℕ → Children
  pub refs : ℕ → ℕ
  pub prunable : ℕ → Bool

-- A function changed at one number.
abbrev pub set_at {ℓ} : {A : Type ℓ} → (ℕ → A) → ℕ → A → ℕ → A
set_at f i a = λ j. if j == i then a else f j

unfoldable pub find_child : Children → Bytes → Option ℕ
find_child [] name = none
find_child ((n, c) ∷ cs) name =
    let rest = find_child cs name in if same n name then some c else rest

unfoldable pub delete_name : Bytes → Children → Children
delete_name name [] = []
delete_name name ((n, c) ∷ cs) =
    let rest = delete_name name cs in if same n name then cs else (n, c) ∷ rest

-- `delete(parent.children, name)` for the first entry whose value is the inode `i`, and `break`.
unfoldable pub delete_value : ℕ → Children → Children
delete_value i [] = []
delete_value i ((n, c) ∷ cs) = let rest = delete_value i cs in if c == i then cs else (n, c) ∷ rest

-- The name of the inode `i`, as the loops of removeViaInodeTree and handleRename find it; "" if there
-- is none. A range over a map has no order; the model takes the order of the list.
unfoldable pub name_of : ℕ → Children → Bytes
name_of i [] = []
name_of i ((n, c) ∷ cs) = let rest = name_of i cs in if c == i then n else rest

unfoldable pub put_child : Bytes → ℕ → Children → Children
put_child name i [] = (name, i) ∷ []
put_child name i ((n, c) ∷ cs) =
    let rest = put_child name i cs in if same n name then (n, i) ∷ cs else (n, c) ∷ rest

unfoldable pub inc_ref : Inodes → ℕ → Inodes
inc_ref t i = record t { refs = set_at t.refs i ((t.refs i + 1) % 2 ^ 32) }

unfoldable pub prune_from : Option ℕ → Inodes → ℕ → Inodes
unfolding delete_value
prune_from none t i = t
prune_from (some p) t i = record t {
  children = set_at t.children p (delete_value i (t.children p));
}

-- The answer says whether that was the last reference.
unfoldable pub dec_ref : Inodes → ℕ → Bool × Inodes
unfolding prune_from
dec_ref t i =
    let left = (t.refs i + (2 ^ 32 - 1)) % 2 ^ 32 in
    let s : Inodes = record t { refs = set_at t.refs i left } in
    if not (left == 0)
    then (false, s)
    else (true, if t.prunable i then prune_from (t.parent i) s i else s)

unfoldable pub add_child : Inodes → ℕ → Bytes → ℕ → Inodes
unfolding put_child
add_child t i name child = record t {
  parent = set_at t.parent child (some i);
  children = set_at t.children i (put_child name child (t.children i));
}

unfoldable pub is_some : Option ℕ → Bool
is_some none = false
is_some (some c) = true

unfoldable pub try_add_child : Inodes → ℕ → Bytes → ℕ → Bool × Inodes
unfolding is_some find_child add_child
try_add_child t i name child =
    if is_some (find_child (t.children i) name)
    then (false, t)
    else (true, add_child t i name child)

unfoldable pub remove_child : Inodes → ℕ → Bytes → Inodes
unfolding delete_name
remove_child t i name = record t {
  children = set_at t.children i (delete_name name (t.children i));
}

-- `check` gets the child and how many children it has, and answers with an error or none. Every inode of
-- a tree was given its node by Init, so the test that the child has one, with EIO, does not fail.
unfoldable pub remove_if_at : Option ℕ → Inodes → ℕ → Bytes → (ℕ → ℕ → Option ℕ) → Option ℕ × Inodes
remove_if_at none t i name check = (some enoent, t)
remove_if_at (some c) t i name check = elim (check c (length (t.children c))) [
  | some e ↦ (some e, t)
  | none ↦ (
    none,
    record t {
      children = set_at t.children i (delete_name name (t.children i));
      parent = set_at t.parent c none;
    },
  )
]

unfoldable pub remove_child_if : Inodes → ℕ → Bytes → (ℕ → ℕ → Option ℕ) → Option ℕ × Inodes
unfolding remove_if_at find_child
remove_child_if t i name check = remove_if_at (find_child (t.children i) name) t i name check
