-- ===== src/Server/FidTable/Nodes.antt =====
-- server/fid.go: the nodes that the calls put in the table and hand back. Callers keep a reference
-- count for each node: one up for a node that enters, one down for a node handed back.
use ninep.Prelude.{
  ℕ, ◌+◌, ◌≡◌, refl, List, [], ◌∷◌, ◌++◌, Option, none, some, count, one_if, count-append, arith,
}
use ninep.Server.Fid.{FidState}
use ninep.Server.FidTable.{
  FidTable, FidError, get, write, delete, states, add, clunk, clunk_all, update, update_and_open,
  Call, adds, clunks, clunks_all, sets_path, updates, marks_opened, updates_and_opens, after, run,
}
use ninep.Server.FidTable.Cases.{
  add_cases, set_path_cases, update_cases, mark_opened_cases, update_and_open_cases,
}

module _ {Handle : Type 0} where
  -- Nodes are known by numbers here.
  unfoldable pub nodes : List (FidState ℕ Handle) → List ℕ
  nodes [] = []
  nodes (fs ∷ rest) = fs.node ∷ nodes rest

  unfoldable pub found_node : Option (FidState ℕ Handle) → List ℕ
  found_node none = []
  found_node (some fs) = fs.node ∷ []

-- The node given, where the call said yes.
unfoldable pub if_added : Option FidError → ℕ → List ℕ
if_added none node = node ∷ []
if_added (some e) node = []

unfoldable pub if_displaced : Option ℕ → ℕ → List ℕ
if_displaced none node = []
if_displaced (some old) node = node ∷ []

unfoldable pub displaced : Option ℕ → List ℕ
displaced none = []
displaced (some old) = old ∷ []

module _ {Handle : Type 0} where
  -- The node that a call puts in the table, and those that it hands back to its caller.
  unfoldable pub entering : ℕ → FidTable ℕ Handle → Call ℕ Handle → List ℕ
  unfolding if_added if_displaced
  entering max_fids ft (adds fid fs) = if_added (add ft fid fs max_fids).0 fs.node
  entering max_fids ft (clunks fid) = []
  entering max_fids ft clunks_all = []
  entering max_fids ft (sets_path fid p) = []
  entering max_fids ft (updates fid node p) = if_displaced (update ft fid node p).0 node
  entering max_fids ft (marks_opened fid h) = []
  entering max_fids ft (updates_and_opens fid node h) =
      if_displaced (update_and_open ft fid node h).0 node

  unfoldable pub leaving : ℕ → FidTable ℕ Handle → Call ℕ Handle → List ℕ
  unfolding found_node nodes displaced
  leaving max_fids ft (adds fid fs) = []
  leaving max_fids ft (clunks fid) = found_node (clunk ft fid).0
  leaving max_fids ft clunks_all = nodes (clunk_all ft).0
  leaving max_fids ft (sets_path fid p) = []
  leaving max_fids ft (updates fid node p) = displaced (update ft fid node p).0
  leaving max_fids ft (marks_opened fid h) = []
  leaving max_fids ft (updates_and_opens fid node h) = displaced (update_and_open ft fid node h).0

  unfoldable pub entered : ℕ → FidTable ℕ Handle → List (Call ℕ Handle) → List ℕ
  unfolding entering
  entered max_fids ft [] = []
  entered max_fids ft (c ∷ cs) = entering max_fids ft c ++ entered max_fids (after max_fids ft c) cs

  unfoldable pub left : ℕ → FidTable ℕ Handle → List (Call ℕ Handle) → List ℕ
  unfolding leaving
  left max_fids ft [] = []
  left max_fids ft (c ∷ cs) = leaving max_fids ft c ++ left max_fids (after max_fids ft c) cs

  -- How often the table holds the node `v`.
  abbrev pub holds : ℕ → FidTable ℕ Handle → ℕ
  holds v ft = count v (nodes (states ft))

  holds-write :
      (v : ℕ) (ft : FidTable ℕ Handle) (fid : ℕ) (old new : FidState ℕ Handle)
      → get ft fid ≡ some old
      → holds v (write fid new ft) + one_if v old.node ≡ holds v ft + one_if v new.node
  unfolding get write states nodes
  holds-write v [] fid old new e = cc
  holds-write v ((f, fs) ∷ ft) fid old new e = ground (arith, holds-write v ft fid old new)

  holds-delete :
      (v : ℕ) (ft : FidTable ℕ Handle) (fid : ℕ)
      → holds v (delete fid ft) + count v (found_node (get ft fid)) ≡ holds v ft
  unfolding get delete states nodes found_node
  holds-delete v [] fid = refl
  holds-delete v ((f, fs) ∷ ft) fid = ground (arith, holds-delete v ft fid)

  after-holds :
      (v max_fids : ℕ) (ft : FidTable ℕ Handle) (c : Call ℕ Handle)
      → holds v ft + count v (entering max_fids ft c)
        ≡ holds v (after max_fids ft c) + count v (leaving max_fids ft c)
  unfolding after entering leaving clunk clunk_all states nodes if_added if_displaced displaced
  after-holds v max_fids ft (adds fid fs) =
      add_cases ft fid (λ r. holds v ft + count v (if_added r.0 fs.node) ≡ holds v r.1 + 0) fs
        max_fids (λ a b. refl) (λ old e. refl) (λ room e. omega arith)
  after-holds v max_fids ft (clunks fid) = omega (arith, holds-delete v ft fid)
  after-holds v max_fids ft clunks_all = omega arith
  after-holds v max_fids ft (sets_path fid p) =
      set_path_cases ft fid (λ t. holds v ft + 0 ≡ holds v t + 0) p (λ e. refl)
        (λ fs e. omega (arith, holds-write v ft fid fs (record fs { path = p }) e))
  after-holds v max_fids ft (updates fid node p) =
      update_cases ft fid
        (λ r. holds v ft + count v (if_displaced r.0 node) ≡ holds v r.1 + count v (displaced r.0))
        node p (λ e. refl)
        (λ fs e. omega (arith, holds-write v ft fid fs (record fs { node = node; path = p }) e))
  after-holds v max_fids ft (marks_opened fid h) =
      mark_opened_cases ft fid (λ r. holds v ft + 0 ≡ holds v r.1 + 0) h (λ e. refl)
        (λ fs e u. refl) (λ fs e u. omega (arith, holds-write v ft fid fs _ e))
  after-holds v max_fids ft (updates_and_opens fid node h) =
      update_and_open_cases ft fid
        (λ r. holds v ft + count v (if_displaced r.0 node) ≡ holds v r.1 + count v (displaced r.0))
        node h (λ e. refl) (λ fs e u. refl) (λ fs e u. omega (arith, holds-write v ft fid fs _ e))

-- Over any calls, in whatever order they take the lock: each node is held by the table at the end and
-- handed back (by clunk, clunkAll, update or updateAndOpen) together as often as it was held at the
-- start and put in.
pub nodes_conserved :
    (Handle : Type 0) (v max_fids : ℕ) (ft : FidTable ℕ Handle) (cs : List (Call ℕ Handle))
    → holds v ft + count v (entered max_fids ft cs)
      ≡ holds v (run max_fids ft cs) + count v (left max_fids ft cs)
unfolding run entered left
nodes_conserved Handle v max_fids ft [] = refl
nodes_conserved Handle v max_fids ft (c ∷ cs) = omega (
  arith,
  after-holds v max_fids ft c,
  nodes_conserved Handle v max_fids (after max_fids ft c) cs,
  count-append v (entering max_fids ft c) (entered max_fids (after max_fids ft c) cs),
  count-append v (leaving max_fids ft c) (left max_fids (after max_fids ft c) cs),
)
