-- ===== src/Server/Inflight/Waiters.antt =====
-- server/flush.go: the channels that a Tflush or the end of the connection waits on, over all histories.
use ninep.Prelude.{
  ℕ, ◌+◌, ◌<◌, ◌≡◌, refl, List, [], Bool, true, false, Option, none, some, ◌==◌, if◌then◌else◌,
  count, arith,
}
use ninep.Server.Inflight.{
  InflightEntry, InflightMap, Requests, Step, Reach, lookup, close, without, signal, done_of, start,
  remove_entry, finish, commit_at, commit, same_rctx, complete_commit_at, complete_commit, wait_on,
  flush_wait_at, flush_wait, cancel_all, drain_made, drain_chan, starts, finishes, commits,
  completes, flushes, cancels, waits, here, next_step,
}
use ninep.Server.Inflight.Entries.{waited, count_of, count-close, waited-put, is_in, length-put}
use ninep.Server.Inflight.Balance.{Inv, start-Inv, signal-Inv, start_at-Inv, without-Balanced}

-- The channel is closed by its holder.
close-Inv :
    (im : InflightMap) (o : Option ℕ) (handed : List ℕ)
    → Inv im (close o handed)
    → Inv (record im { dones_closed = close o im.dones_closed }) handed
close-Inv im o handed i = record {
  balanced = record {
    dones = λ c.
        omega (arith, i.balanced.dones c, count-close c o handed, count-close c o im.dones_closed);
    drains = i.balanced.drains;
    counted = i.balanced.counted;
  };
  idle = i.idle;
}

finish-Inv :
    (im : InflightMap) (tag : ℕ) (e : InflightEntry) (handed : List ℕ)
    → lookup im.entries tag ≡ some e
    → Inv im handed
    → Inv (finish im tag) handed
unfolding finish remove_entry done_of
finish-Inv im tag e handed h i = rw h (
    close-Inv (signal (without im tag)) e.done handed
      (signal-Inv (without im tag) (close e.done handed) (without-Balanced im tag e handed h i)))

commit_at-Inv :
    (im : InflightMap) (tag : ℕ) (e : InflightEntry) (handed : List ℕ)
    → lookup im.entries tag ≡ some e
    → Inv im handed
    → Inv (commit_at (some e) im tag) handed
unfolding commit_at done_of is_in
commit_at-Inv im tag e handed h i = record {
  balanced = record {
    dones = λ c.
        ground (
          arith,
          h,
          i.balanced.dones c,
          waited-put c tag (record e { committed = true }) im.entries,
        );
    drains = i.balanced.drains;
    counted =
        ground
          (arith, h, i.balanced.counted, length-put tag (record e { committed = true }) im.entries);
  };
  idle = i.idle;
}

commit-Inv :
    (im : InflightMap) (tag : ℕ) (e : InflightEntry) (handed : List ℕ)
    → lookup im.entries tag ≡ some e
    → Inv im handed
    → Inv (commit im tag) handed
unfolding commit
commit-Inv im tag e handed h i = rw h (commit_at-Inv im tag e handed h i)

if_same-Inv :
    (b : Bool) (im : InflightMap) (tag : ℕ) (e : InflightEntry) (handed : List ℕ)
    → lookup im.entries tag ≡ some e
    → Inv im handed
    → let r : Option ℕ × InflightMap =
        if b then (e.done, signal (without im tag)) else (none, im) in
      Inv r.1 (close r.0 handed)
unfolding close
if_same-Inv true im tag e handed h i =
    signal-Inv (without im tag) (close e.done handed) (without-Balanced im tag e handed h i)
if_same-Inv false im tag e handed h i = i

complete_commit_at-Inv :
    (o : Option InflightEntry) (im : InflightMap) (tag rctx : ℕ) (handed : List ℕ)
    → lookup im.entries tag ≡ o
    → Inv im handed
    → Inv (complete_commit_at o im tag rctx).1 (close (complete_commit_at o im tag rctx).0 handed)
unfolding complete_commit_at close
complete_commit_at-Inv none im tag rctx handed h i = i
complete_commit_at-Inv (some e) im tag rctx handed h i =
    if_same-Inv (same_rctx e.rctx rctx) im tag e handed h i

wait_on-Inv :
    (o : Option ℕ) (e : InflightEntry) (im : InflightMap) (tag : ℕ) (handed : List ℕ)
    → e.done ≡ o
    → lookup im.entries tag ≡ some e
    → Inv im handed
    → Inv (wait_on o e im tag).1 handed
unfolding wait_on done_of is_in count_of
wait_on-Inv none e im tag handed d h i = record {
  balanced = record {
    dones = λ c. ground (
      arith,
      d,
      h,
      i.balanced.dones c,
      waited-put c tag (record e { done = some im.dones_made }) im.entries,
    );
    drains = i.balanced.drains;
    counted = ground (
      arith,
      h,
      i.balanced.counted,
      length-put tag (record e { done = some im.dones_made }) im.entries,
    );
  };
  idle = i.idle;
}
wait_on-Inv (some c) e im tag handed d h i = record {
  balanced = record {
    dones = i.balanced.dones;
    drains = i.balanced.drains;
    counted = i.balanced.counted;
  };
  idle = i.idle;
}

flush_wait_at-Inv :
    (o : Option InflightEntry) (im : InflightMap) (tag : ℕ) (handed : List ℕ)
    → lookup im.entries tag ≡ o
    → Inv im handed
    → Inv (flush_wait_at o im tag).1 handed
unfolding flush_wait_at
flush_wait_at-Inv none im tag handed h i = i
flush_wait_at-Inv (some e) im tag handed h i = wait_on-Inv e.done e im tag handed refl h i

cancel_all-Inv : (im : InflightMap) (handed : List ℕ) → Inv im handed → Inv (cancel_all im) handed
unfolding cancel_all
cancel_all-Inv im handed i = record {
  balanced = record {
    dones = i.balanced.dones;
    drains = i.balanced.drains;
    counted = i.balanced.counted;
  };
  idle = i.idle;
}

drain_made-Inv :
    (o : Option ℕ) (im : InflightMap) (handed : List ℕ)
    → im.drained ≡ o
    → (im.count == 0) ≡ false
    → Inv im handed
    → Inv (drain_made o im).1 handed
unfolding drain_made count_of
drain_made-Inv none im handed d h i = record {
  balanced = record {
    dones = i.balanced.dones;
    drains = λ c. ground (arith, d, i.balanced.drains c);
    counted = i.balanced.counted;
  };
  idle = λ z. absurd (ground arith);
}
drain_made-Inv (some c) im handed d h i = i

if_busy-Inv :
    (b : Bool) (im : InflightMap) (handed : List ℕ)
    → (im.count == 0) ≡ b
    → Inv im handed
    → let r : Option ℕ × InflightMap = if b then (none, im) else drain_made im.drained im in
      Inv r.1 handed
if_busy-Inv true im handed h i = i
if_busy-Inv false im handed h i = drain_made-Inv im.drained im handed refl h i

Step-Inv : {s t : Requests} → Step s t → Inv s.im s.handed → Inv t.im t.handed
unfolding start complete_commit flush_wait drain_chan
Step-Inv {s} (starts tag rctx) i =
    start_at-Inv (lookup s.im.entries tag) s.im tag rctx s.handed refl i
Step-Inv {s} (finishes tag e h u) i = finish-Inv s.im tag e s.handed h i
Step-Inv {s} (commits tag e h u) i = commit-Inv s.im tag e s.handed h i
Step-Inv {s} (completes tag rctx) i =
    complete_commit_at-Inv (lookup s.im.entries tag) s.im tag rctx s.handed refl i
Step-Inv {s} (flushes tag) i = flush_wait_at-Inv (lookup s.im.entries tag) s.im tag s.handed refl i
Step-Inv {s} cancels i = cancel_all-Inv s.im s.handed i
Step-Inv {s} waits i = if_busy-Inv (s.im.count == 0) s.im s.handed refl i

Reach-Inv : {s : Requests} → Reach s → Inv s.im s.handed
Reach-Inv here = start-Inv
Reach-Inv (next_step r st) = Step-Inv st (Reach-Inv r)

-- In every state that start, finish, commit, completeCommit, flushWait, cancelAll and drainChan reach
-- together: each channel that flushWait made stands in one entry of the map, or is closed once, or was
-- handed once to a caller of completeCommit, and only one of these.
pub waiters_kept :
    (s : Requests) (c : ℕ)
    → Reach s
    → c < s.im.dones_made
    → count c (waited s.im.entries) + count c s.im.dones_closed + count c s.handed ≡ 1
waiters_kept s c r h = let b = (Reach-Inv r).balanced in ground (arith, b.dones c)

-- In every such state with no entry left: the count is 0, and every channel that drainChan made is
-- closed, once.
pub drains_closed_when_idle :
    (s : Requests) (c : ℕ)
    → Reach s
    → s.im.entries ≡ []
    → c < s.im.drains_made
    → (s.im.count ≡ 0) × (count c s.im.drains_closed ≡ 1)
unfolding count_of
drains_closed_when_idle s c r e h =
    let i = Reach-Inv r in
    let idle : s.im.count ≡ 0 = ground (arith, i.balanced.counted) in
    (idle, ground (arith, i.idle idle, i.balanced.drains c))
