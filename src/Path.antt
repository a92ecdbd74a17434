-- ===== src/Path.antt =====
-- The functions Clean and Base of Go's package path, which server/dispatch.go, server/bridge.go and
-- client/path.go use on paths.
use ninep.Prelude.{ℕ, List, [], ◌∷◌, ◌++◌, Bool, false, ◌||◌, ◌==◌, if◌then◌else◌}
use ninep.Proto.Base.{Bytes}
use ninep.Server.Names.{slash, dot, same, is_empty}

-- strings.Split(p, "/"): the first part, and the others.
unfoldable pub add_front : ℕ → List Bytes → List Bytes
add_front b [] = (b ∷ []) ∷ []
add_front b (part ∷ parts) = (b ∷ part) ∷ parts

unfoldable pub split : Bytes → List Bytes
unfolding add_front
split [] = [] ∷ []
split (b ∷ bs) = let rest = split bs in if b == slash then [] ∷ rest else add_front b rest

unfoldable pub join : List Bytes → Bytes
join [] = []
join (part ∷ []) = part
join (part ∷ next ∷ parts) = part ++ (slash ∷ join (next ∷ parts))

abbrev pub dotdot : Bytes
dotdot = dot ∷ dot ∷ []

-- One element of the path, on the elements kept so far, the last one first.
unfoldable pub backtrack : Bool → List Bytes → List Bytes
unfolding same
backtrack rooted [] = if rooted then [] else dotdot ∷ []
backtrack rooted (top ∷ kept) = if same top dotdot then dotdot ∷ top ∷ kept else kept

unfoldable pub clean_step : Bool → List Bytes → Bytes → List Bytes
unfolding backtrack same is_empty
clean_step rooted kept part =
    if is_empty part || same part (dot ∷ [])
    then kept
    else if same part dotdot
    then backtrack rooted kept
    else part ∷ kept

unfoldable pub clean_parts : Bool → List Bytes → List Bytes → List Bytes
unfolding clean_step
clean_parts rooted kept [] = kept
clean_parts rooted kept (part ∷ parts) = clean_parts rooted (clean_step rooted kept part) parts

unfoldable pub reverse_onto : List Bytes → List Bytes → List Bytes
reverse_onto [] out = out
reverse_onto (p ∷ ps) out = reverse_onto ps (p ∷ out)

unfoldable pub is_rooted : Bytes → Bool
is_rooted [] = false
is_rooted (b ∷ bs) = b == slash

unfoldable pub or_dot : Bytes → Bytes
or_dot [] = dot ∷ []
or_dot (b ∷ bs) = b ∷ bs

-- path.Clean
unfoldable pub clean : Bytes → Bytes
unfolding split join clean_parts reverse_onto is_rooted or_dot
clean p =
    let parts = reverse_onto (clean_parts (is_rooted p) [] (split p)) [] in
    if is_rooted p then slash ∷ join parts else or_dot (join parts)

unfoldable pub drop_slashes : Bytes → Bytes
drop_slashes [] = []
drop_slashes (b ∷ bs) = let rest = drop_slashes bs in if b == slash then rest else b ∷ bs

unfoldable pub last_part : List Bytes → Bytes
last_part [] = []
last_part (p ∷ []) = p
last_part (p ∷ q ∷ ps) = last_part (q ∷ ps)

unfoldable pub reverse_bytes : Bytes → Bytes → Bytes
reverse_bytes [] out = out
reverse_bytes (b ∷ bs) out = reverse_bytes bs (b ∷ out)

unfoldable pub or_slash : Bytes → Bytes
or_slash [] = slash ∷ []
or_slash (b ∷ bs) = b ∷ bs

-- path.Base
unfoldable pub base : Bytes → Bytes
unfolding drop_slashes last_part reverse_bytes or_slash split is_empty
base p =
    if is_empty p
    then dot ∷ []
    else or_slash (last_part (split (reverse_bytes (drop_slashes (reverse_bytes p [])) [])))
