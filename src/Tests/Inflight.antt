-- ===== src/Tests/Inflight.antt =====
-- A request that is flushed while its response is written, and a connection that waits for the end.
use ninep.Prelude.{◌+◌, ◌≡◌, refl, [], ◌∷◌, none, some, count, arith}
use ninep.Server.Inflight.{
  Requests, Reach, here, next_step, starts, commits, completes, flushes, waits, new_inflight_map,
  lookup, put, drop_entry, close, signal, start, start_at, commit, commit_at, same_rctx,
  complete_commit, complete_commit_at, flush_wait, flush_wait_at, wait_on, drain_chan, drain_made,
}
use ninep.Server.Inflight.Entries.{waited}
use ninep.Server.Inflight.Waiters.{waiters_kept, drains_closed_when_idle}

abbrev ended : Requests
ended = record {
  im = record {
    entries = [];
    count = 0;
    drained = none;
    dones_made = 1;
    dones_closed = [];
    drains_made = 1;
    drains_closed = 0 ∷ [];
    flushed = some 42 ∷ [];
  };
  handed = 0 ∷ [];
}

ended-Reach : Reach ended
unfolding new_inflight_map lookup put drop_entry close signal start start_at commit commit_at
    same_rctx complete_commit complete_commit_at flush_wait flush_wait_at wait_on drain_chan
    drain_made
ended-Reach =
    next_step
      (next_step
        (next_step (next_step (next_step here (starts 5 42)) (commits 5 _ refl refl)) (flushes 5))
        waits)
      (completes 5 42)

waiters_kept_example : count 0 (waited []) + count 0 [] + count 0 (0 ∷ []) ≡ 1
waiters_kept_example = waiters_kept ended 0 ended-Reach (omega arith)

drains_closed_when_idle_example : (ended.im.count ≡ 0) × (count 0 (0 ∷ []) ≡ 1)
drains_closed_when_idle_example = drains_closed_when_idle ended 0 ended-Reach refl (omega arith)
