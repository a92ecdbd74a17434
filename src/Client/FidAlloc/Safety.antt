-- ===== src/Client/FidAlloc/Safety.antt =====
-- client/fidalloc.go: the fids that are held and kept, over all histories of the allocator.
use ninep.Prelude.{
  ℕ, ◌+◌, ◌≤◌, ◌<◌, ◌≡◌, List, [], ◌∷◌, none, some, length, count, count-remove, remove, arith,
}
use ninep.Proto.Base.{no_fid}
use ninep.Client.FidAlloc.{
  FidAllocator, new_fid_allocator, acquire_from, acquire, release, reuse_cache_size, Session, start,
  Step, acquires, exhausted, releases, Reach, here, next_step,
}

-- Every fid is held or kept for reuse at most once, and was handed out by the counter.
pub record Inv (s : Session) : Type 0 where
  pub once : (v : ℕ) → count v s.held + count v s.alloc.reuse ≤ 1
  pub issued : (v : ℕ) → 0 < count v s.held + count v s.alloc.reuse → (1 ≤ v) × (v < s.alloc.next)
  pub counter : (1 ≤ s.alloc.next) × (s.alloc.next ≤ no_fid)
  pub bounded : length s.alloc.reuse ≤ reuse_cache_size

start-Inv : Inv start
unfolding new_fid_allocator
start-Inv = record {
  once = λ v. omega arith;
  issued = λ v h. absurd (omega arith);
  counter = omega arith;
  bounded = omega arith;
}

abbrev Acquired : Session → ℕ → FidAllocator → Type 0
Acquired s f fa =
    Inv (record { alloc = fa; held = f ∷ s.held }) × (count f s.held ≡ 0) × (1 ≤ f) × (f < no_fid)

acquire_from-Acquired :
    (n : ℕ) (r held : List ℕ) (f : ℕ) (fa : FidAllocator)
    → acquire_from (record { next = n; reuse = r }) r ≡ (some f, fa)
    → Inv (record { alloc = record { next = n; reuse = r }; held = held })
    → Acquired (record { alloc = record { next = n; reuse = r }; held = held }) f fa
unfolding acquire_from
acquire_from-Acquired n [] held f fa e i = (
  record {
    once = λ v. ground (arith, i.once v, i.issued v);
    issued = λ v p. ground (arith, i.issued v);
    counter = ground (arith, i.counter);
    bounded = ground (arith, i.bounded);
  },
  ground (arith, i.issued f),
  ground (arith, i.counter),
  ground (arith, i.counter),
)
acquire_from-Acquired n (g ∷ r) held f fa e i = (
  record {
    once = λ v. ground (arith, i.once v, i.issued v);
    issued = λ v p. ground (arith, i.issued v);
    counter = ground (arith, i.counter);
    bounded = ground (arith, i.bounded);
  },
  ground (arith, i.once f),
  ground (arith, i.issued f),
  ground (arith, i.issued f, i.counter),
)

acquire-Acquired :
    (s : Session) (f : ℕ) (fa : FidAllocator)
    → acquire s.alloc ≡ (some f, fa)
    → Inv s
    → Acquired s f fa
unfolding acquire
acquire-Acquired s f fa e i =
    acquire_from-Acquired s.alloc.next s.alloc.reuse s.held f fa (unfold acquire_from in e) i

acquire_from-none :
    (fa : FidAllocator) (r : List ℕ) (fb : FidAllocator)
    → acquire_from fa r ≡ (none, fb)
    → (fb ≡ fa) × (no_fid ≤ fa.next) × (r ≡ [])
unfolding acquire_from
acquire_from-none fa [] fb e = ground arith
acquire_from-none fa (g ∷ r) fb e = cc

release-Inv :
    (s : Session) (f : ℕ)
    → 0 < count f s.held
    → Inv s
    → Inv (record { alloc = release s.alloc f; held = remove f s.held })
unfolding release
release-Inv s f h i = record {
  once = λ v. ground (arith, count-remove v f s.held h, i.once v);
  issued = λ v p. ground (arith, count-remove v f s.held h, i.issued v);
  counter = ground arith;
  bounded = ground arith;
}

Step-Inv : {s t : Session} → Step s t → Inv s → Inv t
Step-Inv {s} (acquires f fa e) i = (acquire-Acquired s f fa e i).0
Step-Inv {s} (exhausted fa e) i =
    rw (acquire_from-none s.alloc s.alloc.reuse fa (unfold acquire in e)).0 i
Step-Inv {s} (releases f h) i = release-Inv s f h i

Reach-Inv : {s : Session} → Reach s → Inv s
Reach-Inv here = start-Inv
Reach-Inv (next_step r st) = Step-Inv st (Reach-Inv r)

-- Whatever callers did before, as long as each released only fids that it held, `acquire` returns a
-- fid that nobody holds, and never 0 or NoFid.
pub acquire_unheld :
    (s : Session) (f : ℕ) (fa : FidAllocator)
    → Reach s
    → acquire s.alloc ≡ (some f, fa)
    → (count f s.held ≡ 0) × (1 ≤ f) × (f < no_fid)
acquire_unheld s f fa r e = let (i, a, b, c) = acquire-Acquired s f fa e (Reach-Inv r) in (a, b, c)
