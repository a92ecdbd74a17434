-- ===== src/Tests/Walks.antt =====
-- A client whose server answers a walk with one QID for each name, and a clunk with nothing.
use ninep.Prelude.{◌≡◌, refl, true, List, [], ◌∷◌, false, some, none, map}
use ninep.Proto.Base.{Bytes}
use ninep.Proto.Types.{Qid}
use ninep.Client.File.{File}
use ninep.Client.FidAlloc.{
  FidAllocator, new_fid_allocator, acquire, acquire_from, fresh, here, acquires, next_step,
}
use ninep.Client.Walk.{Remote, other_error, close}
use ninep.Client.Walk.Fids.{Holding, IsSafe, Cleaned, opens, obtain, obtain-IsSafe, close_lem}

abbrev some_qid : Qid
some_qid = record { type = 0; version = 0; path = 4 }

abbrev remote : Remote
remote = record {
  World = Unit;
  rwalk = λ fid new names w. (some (map (λ n. some_qid) names), w);
  ropen = λ fid flags w. (none, w);
  rclunk_fid = λ fid w. (other_error, w);
}

abbrev root : File
root = record {
  fid = 1;
  qid = some_qid;
  iounit = 0;
  closed = false;
  offset = 0;
  cached_size = 0;
  readdir_offset = 0;
}

-- The first fid is the root's.
abbrev allocator : FidAllocator
allocator = record { next = 2; reuse = [] }

root_held : Holding allocator (1 ∷ [])
unfolding acquire acquire_from fresh new_fid_allocator
root_held = next_step here (acquires 1 allocator refl)

abbrev names : List Bytes
names = (97 ∷ []) ∷ (98 ∷ []) ∷ []

-- The walk is answered, the open is refused, and the clunk brings no answer.
obtain-IsSafe_example :
    IsSafe remote (opens names 0) (1 ∷ []) (obtain remote (opens names 0) root allocator tt)
obtain-IsSafe_example = obtain-IsSafe remote (opens names 0) root allocator (1 ∷ []) tt root_held

close_lem_example :
    let r = close remote root allocator tt in
    Cleaned remote [] 1 allocator other_error r.2
    × (r.0 ≡ some other_error)
    × (r.1 ≡ record root { closed = true })
    × (r.3 ≡ tt)
    × ((fb : FidAllocator) (v : remote.World) → close remote r.1 fb v ≡ (none, r.1, fb, v))
close_lem_example = close_lem remote root allocator [] tt refl root_held
