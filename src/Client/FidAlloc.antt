-- ===== src/Client/FidAlloc.antt =====
-- client/fidalloc.go: a counter for fresh fids and a bounded last-in-first-out list of released ones.
pub mod Safety
use ninep.Prelude.{
  ℕ, ◌+◌, ◌%◌, ◌^◌, ◌<◌, ◌≡◌, List, [], ◌∷◌, Option, none, some, length, leb, ltb, count, remove,
  if◌then◌else◌,
}
use ninep.Proto.Base.{no_fid}

abbrev pub fid_start : ℕ
fid_start = 1

abbrev pub reuse_cache_size : ℕ
reuse_cache_size = 1024

-- `reuse` is the slice from its end, where fids are pushed and popped. The mutex makes each method
-- one step.
pub record FidAllocator : Type 0 where
  pub next : ℕ
  pub reuse : List ℕ

unfoldable pub new_fid_allocator : FidAllocator
new_fid_allocator = record { next = fid_start; reuse = [] }

unfoldable pub fresh : FidAllocator → Option ℕ × FidAllocator
fresh fa =
    if leb no_fid fa.next
    then (none, fa)
    else (some fa.next, record fa { next = (fa.next + 1) % 2 ^ 32 })

unfoldable pub acquire_from : FidAllocator → List ℕ → Option ℕ × FidAllocator
unfolding fresh
acquire_from fa [] = fresh fa
acquire_from fa (f ∷ rest) = (some f, record fa { reuse = rest })

-- `none` is ErrFidExhausted.
unfoldable pub acquire : FidAllocator → Option ℕ × FidAllocator
unfolding acquire_from
acquire fa = acquire_from fa fa.reuse

unfoldable pub release : FidAllocator → ℕ → FidAllocator
release fa fid =
    if ltb (length fa.reuse) reuse_cache_size then record fa { reuse = fid ∷ fa.reuse } else fa

-- The allocator with the fids that its callers hold. A caller releases only a fid that it holds,
-- which is the contract that the file states.
pub record Session : Type 0 where
  pub alloc : FidAllocator
  pub held : List ℕ

abbrev pub start : Session
start = record { alloc = new_fid_allocator; held = [] }

pub data Step (s : Session) : Session → Type 0 where
  acquires :
      (f : ℕ) (fa : FidAllocator)
      → acquire s.alloc ≡ (some f, fa)
      → Step s (record { alloc = fa; held = f ∷ s.held })
  exhausted : (fa : FidAllocator) → acquire s.alloc ≡ (none, fa) → Step s (record s { alloc = fa })
  releases :
      (f : ℕ)
      → 0 < count f s.held
      → Step s (record { alloc = release s.alloc f; held = remove f s.held })

pub data Reach : Session → Type 0 where
  here : Reach start
  next_step : {s t : Session} → Reach s → Step s t → Reach t
