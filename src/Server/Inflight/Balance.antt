-- ===== src/Server/Inflight/Balance.antt =====
-- server/flush.go: the balance of the channels and of the count, and the methods that add an entry or
-- take one out.
use ninep.Prelude.{
  ℕ, ◌+◌, ◌≡◌, refl, List, [], false, Option, none, some, ltb, if◌then◌else◌, length, count, arith,
}
use ninep.Server.Inflight.{
  InflightEntry, InflightMap, new_inflight_map, lookup, close, without, signal, done_of, start_at,
}
use ninep.Server.Inflight.Entries.{
  waited, count_of, count-close, waited-put, waited-drop, is_in, length-put, length-drop_entry,
}

-- Is `c` one of the first `n` channels made?
abbrev pub made : ℕ → ℕ → ℕ
made c n = if ltb c n then 1 else 0

pub record Balanced (im : InflightMap) (handed : List ℕ) : Type 0 where
  pub dones :
      (c : ℕ)
      → count c (waited im.entries) + count c im.dones_closed + count c handed
        ≡ made c im.dones_made
  pub drains : (c : ℕ) → count_of c im.drained + count c im.drains_closed ≡ made c im.drains_made
  pub counted : im.count ≡ length im.entries

pub record Inv (im : InflightMap) (handed : List ℕ) : Type 0 where
  pub balanced : Balanced im handed
  pub idle : im.count ≡ 0 → im.drained ≡ none

pub start-Inv : Inv new_inflight_map []
unfolding new_inflight_map waited count_of
start-Inv = record {
  balanced = record { dones = λ c. ground arith; drains = λ c. ground arith; counted = refl };
  idle = λ h. refl;
}

pub signal-Inv : (im : InflightMap) (handed : List ℕ) → Balanced im handed → Inv (signal im) handed
unfolding signal count_of
signal-Inv im handed b = record {
  balanced = record {
    dones = λ c. ground (arith, b.dones c);
    drains = λ c. ground (arith, b.drains c, count-close c im.drained im.drains_closed);
    counted = ground (arith, b.counted);
  };
  idle = λ h. ground arith;
}

pub start_at-Inv :
    (o : Option InflightEntry) (im : InflightMap) (tag rctx : ℕ) (handed : List ℕ)
    → lookup im.entries tag ≡ o
    → Inv im handed
    → Inv (start_at o im tag rctx).1 handed
unfolding start_at count_of done_of is_in
start_at-Inv none im tag rctx handed e i = record {
  balanced = record {
    dones = λ c. ground (
      arith,
      e,
      i.balanced.dones c,
      waited-put c tag (record { rctx = some rctx; done = none; committed = false }) im.entries,
    );
    drains = i.balanced.drains;
    counted = ground (
      arith,
      e,
      i.balanced.counted,
      length-put tag (record { rctx = some rctx; done = none; committed = false }) im.entries,
    );
  };
  idle = λ h. absurd (omega arith);
}
start_at-Inv (some old) im tag rctx handed e i = record {
  balanced = record {
    dones = λ c. ground (
      arith,
      e,
      i.balanced.dones c,
      count-close c old.done im.dones_closed,
      waited-put c tag (record { rctx = some rctx; done = none; committed = false }) im.entries,
    );
    drains = λ c. ground (arith, i.balanced.drains c);
    counted = ground (
      arith,
      e,
      i.balanced.counted,
      length-put tag (record { rctx = some rctx; done = none; committed = false }) im.entries,
    );
  };
  idle = λ h. ground (arith, i.idle);
}

-- Taking an entry out leaves its channel with whoever took it.
pub without-Balanced :
    (im : InflightMap) (tag : ℕ) (e : InflightEntry) (handed : List ℕ)
    → lookup im.entries tag ≡ some e
    → Inv im handed
    → Balanced (without im tag) (close e.done handed)
unfolding done_of is_in
without-Balanced im tag e handed h i = record {
  dones = λ c.
      ground
        (arith, h, i.balanced.dones c, count-close c e.done handed, waited-drop c tag im.entries);
  drains = i.balanced.drains;
  counted = ground (arith, h, i.balanced.counted, length-drop_entry tag im.entries);
}
