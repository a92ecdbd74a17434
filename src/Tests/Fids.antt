-- ===== src/Tests/Fids.antt =====
-- A fid that is clunked while a read runs, and a few calls on a table. Nodes and handles are numbers.
use ninep.Prelude.{
  ◌⊎◌, ℕ, ◌+◌, ◌≤◌, ◌≡◌, refl, List, [], ◌∷◌, true, false, not, none, some, length, count, arith,
}
use ninep.Server.Fid.{
  FidState, Uses, new_fid, begin_io, end_io, finish_clunk, log, Reach, here, next_step, begins,
  refused, ends, clunks,
}
use ninep.Server.Fid.Lifecycle.{due, is_clunked, released_once}
use ninep.Server.FidTable.{
  FidTable, get, mark_opened_with_handle, mark_opened_at, is_allocated, write, update_and_open,
  Call, adds, clunks_all, updates, marks_opened, updates_and_opens, sets_path, after, run,
}
use ninep.Server.FidTable.Lookup.{keys}
use ninep.Server.FidTable.Sizes.{table_bounded}
use ninep.Server.FidTable.Refines.{apply, has_room, get-after-run}
use ninep.Server.FidTable.Opened.{keeps, all_keep, opened_once}
use ninep.Server.FidTable.Nodes.{holds, entered, left, nodes_conserved}
use ninep.Server.FidTable as FidTable

abbrev root : FidState ℕ ℕ
root = new_fid 7 []

abbrev drained : Uses ℕ ℕ
drained = record {
  fid = record root { closing = true; close_node = true };
  running = 0;
  clunked = some true;
  released = true ∷ [];
}

drained-Reach : Reach ℕ ℕ 7 [] drained
unfolding begin_io end_io finish_clunk log
drained-Reach =
    next_step
      (next_step (next_step (next_step here (begins _ refl)) (clunks true refl)) (refused _ refl))
      (ends (omega arith))

released_once_example :
    (true ∷ [] ≡ due (some true) 0) × ((begin_io drained.fid).0 ≡ not (is_clunked (some true)))
released_once_example = released_once ℕ ℕ 7 [] drained drained-Reach

abbrev calls : List (Call ℕ ℕ)
calls =
    adds 1 root
    ∷ adds 2 (new_fid 8 [])
    ∷ adds 3 (new_fid 9 [])
    ∷ updates 1 5 []
    ∷ FidTable.clunks 2
    ∷ []

abbrev limit : ℕ
limit = 2

table_bounded_example :
    (count 1 (keys (run 2 [] calls)) ≤ 1) × ((length (run 2 [] calls) ≤ 2) ⊎ (limit ≡ 0))
table_bounded_example = table_bounded ℕ ℕ limit calls 1

get-after-run_example :
    get (after 2 (run 2 [] calls) (updates_and_opens 1 6 (some 4))) 1
    ≡ apply
        (has_room 2 (length (run 2 [] calls)))
        (get (run 2 [] calls))
        (updates_and_opens 1 6 (some 4))
        1
get-after-run_example = get-after-run ℕ ℕ 2 calls (updates_and_opens 1 6 (some 4)) 1

abbrev one_fid : FidTable ℕ ℕ
one_fid = (1, root) ∷ []

nodes_conserved_example :
    holds 7 one_fid + count 7 (entered 2 one_fid calls)
    ≡ holds 7 (run 2 one_fid calls) + count 7 (left 2 one_fid calls)
nodes_conserved_example = nodes_conserved ℕ 7 2 one_fid calls

abbrev later : List (Call ℕ ℕ)
later = adds 2 root ∷ updates 1 5 [] ∷ FidTable.clunks 2 ∷ []

opens : (mark_opened_with_handle one_fid 1 (some 4)).0 ≡ true
unfolding mark_opened_with_handle mark_opened_at get is_allocated
opens = refl

later-keep : all_keep 1 later ≡ true
unfolding all_keep keeps
later-keep = refl

opened_once_example :
    let end : FidTable ℕ ℕ = run 0 (mark_opened_with_handle one_fid 1 (some 4)).1 later in
    ((found : FidState ℕ ℕ) × (get end 1 ≡ some found) × (found.handle ≡ some 4))
    × (mark_opened_with_handle end 1 none ≡ (false, end))
    × (update_and_open end 1 9 none ≡ (none, end))
opened_once_example = opened_once ℕ ℕ 0 one_fid 1 (some 4) later 9 none opens later-keep
