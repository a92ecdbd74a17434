-- ===== src/Server/Inflight.antt =====
-- server/flush.go: the requests in flight, by tag, and the channels on which a Tflush or the end of
-- the connection waits. Each method holds the lock throughout and is one step.
pub mod Entries
pub mod Balance
pub mod Waiters
use ninep.Prelude.{
  ℕ, ◌+◌, ◌-◌, ◌<◌, ◌≡◌, List, [], ◌∷◌, ◌++◌, Bool, true, false, Option, none, some, ◌==◌,
  if◌then◌else◌,
}

-- A request context and a channel are known by numbers. `none` is nil.
pub record InflightEntry : Type 0 where
  pub rctx : Option ℕ
  pub done : Option ℕ
  pub committed : Bool

abbrev pub Entries : Type 0
Entries = List (ℕ × InflightEntry)

-- With the map: how many channels flushWait and drainChan have made, which of them are closed, and
-- the request contexts that were cancelled.
pub record InflightMap : Type 0 where
  pub entries : Entries
  pub count : ℕ
  pub drained : Option ℕ
  pub dones_made : ℕ
  pub dones_closed : List ℕ
  pub drains_made : ℕ
  pub drains_closed : List ℕ
  pub flushed : List (Option ℕ)

unfoldable pub new_inflight_map : InflightMap
new_inflight_map = record {
  entries = [];
  count = 0;
  drained = none;
  dones_made = 0;
  dones_closed = [];
  drains_made = 0;
  drains_closed = [];
  flushed = [];
}

unfoldable pub lookup : Entries → ℕ → Option InflightEntry
lookup [] tag = none
lookup ((t, e) ∷ es) tag = let rest = lookup es tag in if t == tag then some e else rest

-- `im.entries[tag] = entry`
unfoldable pub put : ℕ → InflightEntry → Entries → Entries
put tag new [] = (tag, new) ∷ []
put tag new ((t, e) ∷ es) =
    let rest = put tag new es in if t == tag then (t, new) ∷ es else (t, e) ∷ rest

unfoldable pub drop_entry : ℕ → Entries → Entries
drop_entry tag [] = []
drop_entry tag ((t, e) ∷ es) =
    let rest = drop_entry tag es in if t == tag then es else (t, e) ∷ rest

-- `if c != nil { close(c) }`
unfoldable pub close : Option ℕ → List ℕ → List ℕ
close none closed = closed
close (some c) closed = c ∷ closed

abbrev pub new_entry : ℕ → InflightEntry
new_entry rctx = record { rctx = some rctx; done = none; committed = false }

unfoldable pub start_at : Option InflightEntry → InflightMap → ℕ → ℕ → Bool × InflightMap
unfolding put close
start_at none im tag rctx =
    (true, record im { entries = put tag (new_entry rctx) im.entries; count = im.count + 1 })
start_at (some e) im tag rctx =
    if e.committed
    then (
      true,
      record im {
        entries = put tag (new_entry rctx) im.entries;
        dones_closed = close e.done im.dones_closed;
      },
    )
    else (false, im)

unfoldable pub start : InflightMap → ℕ → ℕ → Bool × InflightMap
unfolding start_at
start im tag rctx = start_at (lookup im.entries tag) im tag rctx

-- The waiters for the last request are released.
unfoldable pub signal : InflightMap → InflightMap
signal im =
    if im.count == 0
    then record im { drained = none; drains_closed = close im.drained im.drains_closed }
    else im

abbrev pub without : InflightMap → ℕ → InflightMap
without im tag = record im { entries = drop_entry tag im.entries; count = im.count - 1 }

unfoldable pub done_of : Option InflightEntry → Option ℕ
done_of none = none
done_of (some e) = e.done

unfoldable pub remove_entry : InflightMap → ℕ → Option ℕ × InflightMap
unfolding signal done_of
remove_entry im tag = (done_of (lookup im.entries tag), signal (without im tag))

unfoldable pub finish : InflightMap → ℕ → InflightMap
unfolding remove_entry
finish im tag =
    let removed = (remove_entry im tag).1 in
    record removed { dones_closed = close (remove_entry im tag).0 removed.dones_closed }

unfoldable pub commit_at : Option InflightEntry → InflightMap → ℕ → InflightMap
commit_at none im tag = record im {
  entries = put tag (record { rctx = none; done = none; committed = true }) im.entries;
}
commit_at (some e) im tag = record im {
  entries = put tag (record e { committed = true }) im.entries;
}

unfoldable pub commit : InflightMap → ℕ → InflightMap
unfolding commit_at
commit im tag = commit_at (lookup im.entries tag) im tag

unfoldable pub same_rctx : Option ℕ → ℕ → Bool
same_rctx none rctx = false
same_rctx (some r) rctx = r == rctx

unfoldable pub complete_commit_at :
    Option InflightEntry → InflightMap → ℕ → ℕ → Option ℕ × InflightMap
complete_commit_at none im tag rctx = (none, im)
complete_commit_at (some e) im tag rctx =
    if same_rctx e.rctx rctx then (e.done, signal (without im tag)) else (none, im)

unfoldable pub complete_commit : InflightMap → ℕ → ℕ → Option ℕ × InflightMap
unfolding complete_commit_at
complete_commit im tag rctx = complete_commit_at (lookup im.entries tag) im tag rctx

-- A channel for the Tflush to wait on: the entry's, or a new one.
unfoldable pub wait_on : Option ℕ → InflightEntry → InflightMap → ℕ → Option ℕ × InflightMap
wait_on none e im tag = (
  some im.dones_made,
  record im {
    entries = put tag (record e { done = some im.dones_made }) im.entries;
    dones_made = im.dones_made + 1;
    flushed = e.rctx ∷ im.flushed;
  },
)
wait_on (some c) e im tag = (some c, record im { flushed = e.rctx ∷ im.flushed })

unfoldable pub flush_wait_at : Option InflightEntry → InflightMap → ℕ → Option ℕ × InflightMap
unfolding wait_on
flush_wait_at none im tag = (none, im)
flush_wait_at (some e) im tag = wait_on e.done e im tag

unfoldable pub flush_wait : InflightMap → ℕ → Option ℕ × InflightMap
unfolding flush_wait_at
flush_wait im tag = flush_wait_at (lookup im.entries tag) im tag

unfoldable pub contexts : Entries → List (Option ℕ)
contexts [] = []
contexts ((t, e) ∷ es) = e.rctx ∷ contexts es

unfoldable pub cancel_all : InflightMap → InflightMap
unfolding contexts
cancel_all im = record im { flushed = contexts im.entries ++ im.flushed }

unfoldable pub drain_made : Option ℕ → InflightMap → Option ℕ × InflightMap
drain_made none im = (
  some im.drains_made,
  record im { drained = some im.drains_made; drains_made = im.drains_made + 1 },
)
drain_made (some c) im = (some c, im)

unfoldable pub drain_chan : InflightMap → Option ℕ × InflightMap
unfolding drain_made
drain_chan im = if im.count == 0 then (none, im) else drain_made im.drained im

-- The map with the channels that completeCommit handed to its callers, which close them.
pub record Requests : Type 0 where
  pub im : InflightMap
  pub handed : List ℕ

-- finish and commit are called by the handler of a request that `start` let in, once and on one path
-- or the other, so for a tag whose entry is not committed. The other methods are called at any time.
pub data Step (s : Requests) : Requests → Type 0 where
  starts : (tag rctx : ℕ) → Step s (record s { im = (start s.im tag rctx).1 })
  finishes :
      (tag : ℕ) (e : InflightEntry)
      → lookup s.im.entries tag ≡ some e
      → e.committed ≡ false
      → Step s (record s { im = finish s.im tag })
  commits :
      (tag : ℕ) (e : InflightEntry)
      → lookup s.im.entries tag ≡ some e
      → e.committed ≡ false
      → Step s (record s { im = commit s.im tag })
  completes :
      (tag rctx : ℕ)
      → Step s (record {
        im = (complete_commit s.im tag rctx).1;
        handed = close (complete_commit s.im tag rctx).0 s.handed;
      })
  flushes : (tag : ℕ) → Step s (record s { im = (flush_wait s.im tag).1 })
  cancels : Step s (record s { im = cancel_all s.im })
  waits : Step s (record s { im = (drain_chan s.im).1 })

pub data Reach : Requests → Type 0 where
  here : Reach (record { im = new_inflight_map; handed = [] })
  next_step : {s t : Requests} → Reach s → Step s t → Reach t
