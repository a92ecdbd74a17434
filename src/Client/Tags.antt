-- ===== src/Client/Tags.antt =====
-- client/tags.go: the free-list of tags. The channel is a queue of at most `capacity` tags; a send or
-- a receive is one step.
pub mod Conservation
use ninep.Prelude.{
  ℕ, zero, suc, ◌+◌, ◌%◌, ◌^◌, ◌<◌, ◌≡◌, List, [], ◌∷◌, ◌++◌, Option, none, some, length, ltb,
  count, remove, if◌then◌else◌,
}

pub record TagAllocator : Type 0 where
  pub free : List ℕ
  pub capacity : ℕ

-- `for i := 1; i <= n; i++`: the tags sent by the last `n` rounds of the loop.
unfoldable pub seed : ℕ → ℕ → List ℕ
seed i zero = []
seed i (suc n) = (i % 2 ^ 16) ∷ seed (i + 1) n

unfoldable pub new_tag_allocator : ℕ → TagAllocator
new_tag_allocator n = record { free = seed 1 n; capacity = n }

-- What `acquire` does when the receive is ready; `none` is a caller that goes on waiting, or gives up
-- when its context is cancelled or the connection stops.
unfoldable pub receive : List ℕ → ℕ → Option (ℕ × TagAllocator)
receive [] capacity = none
receive (t ∷ rest) capacity = some (t, record { free = rest; capacity = capacity })

unfoldable pub acquire : TagAllocator → Option (ℕ × TagAllocator)
unfolding receive
acquire ta = receive ta.free ta.capacity

-- A send to a full channel takes the `default` case.
unfoldable pub release : TagAllocator → ℕ → TagAllocator
release ta tag =
    if ltb (length ta.free) ta.capacity then record ta { free = ta.free ++ (tag ∷ []) } else ta

-- The allocator with the tags that requests in flight hold. Only the holder of a tag releases it.
pub record Requests : Type 0 where
  pub alloc : TagAllocator
  pub held : List ℕ

abbrev pub start : ℕ → Requests
start n = record { alloc = new_tag_allocator n; held = [] }

pub data Step (s : Requests) : Requests → Type 0 where
  acquires :
      (t : ℕ) (ta : TagAllocator)
      → acquire s.alloc ≡ some (t, ta)
      → Step s (record { alloc = ta; held = t ∷ s.held })
  releases :
      (t : ℕ)
      → 0 < count t s.held
      → Step s (record { alloc = release s.alloc t; held = remove t s.held })

pub data Reach (n : ℕ) : Requests → Type 0 where
  here : Reach n (start n)
  next_step : {s t : Requests} → Reach n s → Step s t → Reach n t
