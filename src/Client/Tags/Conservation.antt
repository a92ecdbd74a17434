-- ===== src/Client/Tags/Conservation.antt =====
-- client/tags.go: the tags that are free and held, over all histories of the allocator.
use ninep.Prelude.{
  ℕ, zero, suc, ◌+◌, ◌%◌, ◌^◌, ◌≤◌, ◌<◌, ◌≡◌, refl, List, [], ◌∷◌, ◌++◌, some, length,
  length-append, true, leb, ltb, ◌&&◌, count, count-append, count-remove, length-remove, remove,
  if◌then◌else◌, arith,
}
use ninep.Proto.Base.{no_tag}
use ninep.Client.Tags.{
  TagAllocator, seed, new_tag_allocator, receive, acquire, release, Requests, start, Step, acquires,
  releases, Reach, here, next_step,
}

-- Is `v` one of the tags `lo` to `lo + n - 1`?
abbrev pub in_range : ℕ → ℕ → ℕ → ℕ
in_range lo n v = if leb lo v && ltb v (lo + n) then 1 else 0

-- Each of the tags 1 to `n` is free or held, and not both, and no other number is.
pub record Inv (n : ℕ) (s : Requests) : Type 0 where
  pub each : (v : ℕ) → count v s.alloc.free + count v s.held ≡ in_range 1 n v
  pub total : length s.alloc.free + length s.held ≡ n
  pub capacity : s.alloc.capacity ≡ n

count-seed : (v lo n : ℕ) → lo + n ≤ 2 ^ 16 → count v (seed lo n) ≡ in_range lo n v
unfolding seed
count-seed v lo zero h = ground arith
count-seed v lo (suc n) h =
    let low : lo % 2 ^ 16 ≡ lo = omega arith in
    ground (arith, low, count-seed v (lo + 1) n (omega arith))

length-seed : (lo n : ℕ) → length (seed lo n) ≡ n
unfolding seed
length-seed lo zero = refl
length-seed lo (suc n) = omega (arith, length-seed (lo + 1) n)

start-Inv : (n : ℕ) → n < no_tag → Inv n (start n)
unfolding new_tag_allocator
start-Inv n small = record {
  each = λ v. omega (arith, count-seed v 1 n (omega arith));
  total = omega (arith, length-seed 1 n);
  capacity = refl;
}

receive-Inv :
    (n c : ℕ) (free held : List ℕ) (t : ℕ) (ta : TagAllocator)
    → receive free c ≡ some (t, ta)
    → Inv n (record { alloc = record { free = free; capacity = c }; held = held })
    → Inv n (record { alloc = ta; held = t ∷ held })
unfolding receive
receive-Inv n c [] held t ta e i = cc
receive-Inv n c (u ∷ free) held t ta e i = record {
  each = λ v. ground (arith, i.each v);
  total = ground (arith, i.total);
  capacity = ground (arith, i.capacity);
}

-- A release finds room, so the tag is put back.
pub release-Inv :
    (n : ℕ) (s : Requests) (t : ℕ)
    → 0 < count t s.held
    → Inv n s
    → Inv n (record { alloc = release s.alloc t; held = remove t s.held })
      × ((release s.alloc t).free ≡ s.alloc.free ++ (t ∷ []))
unfolding release
release-Inv n s t h i =
    let room : ltb (length s.alloc.free) s.alloc.capacity ≡ true =
      ground (arith, i.total, i.capacity, length-remove t s.held h) in
    rw room (
      record {
        each = λ v.
            omega
              (arith, i.each v, count-remove v t s.held h, count-append v s.alloc.free (t ∷ []));
        total =
            omega (arith, i.total, length-remove t s.held h, length-append s.alloc.free (t ∷ []));
        capacity = i.capacity;
      },
      refl,
    )

Step-Inv : (n : ℕ) {s t : Requests} → Step s t → Inv n s → Inv n t
unfolding acquire
Step-Inv n {s} (acquires t ta e) i = receive-Inv n s.alloc.capacity s.alloc.free s.held t ta e i
Step-Inv n {s} (releases t h) i = (release-Inv n s t h i).0

Reach-Inv : (n : ℕ) {s : Requests} → n < no_tag → Reach n s → Inv n s
Reach-Inv n small here = start-Inv n small
Reach-Inv n small (next_step r st) = Step-Inv n st (Reach-Inv n small r)

-- For `n` below NoTag, whatever was acquired and released before, each by its holder: every tag from
-- 1 to `n` is either free or held by one request, no other tag is in use, and the free tags and the
-- held ones are together as many as the channel has room for.
pub tags_conserved :
    (n : ℕ) (s : Requests) (v : ℕ)
    → n < no_tag
    → Reach n s
    → (count v s.alloc.free + count v s.held ≡ in_range 1 n v)
      × (length s.alloc.free + length s.held ≡ s.alloc.capacity)
tags_conserved n s v small r =
    let i = Reach-Inv n small r in (i.each v, omega (arith, i.total, i.capacity))

receive_total :
    (n c : ℕ) (free held : List ℕ)
    → n < no_tag
    → Inv n (record { alloc = record { free = free; capacity = c }; held = held })
    → length held < n
    → (t : ℕ) × (ta : TagAllocator) × (receive free c ≡ some (t, ta))
      × (count t held ≡ 0)
      × (1 ≤ t)
      × (t < no_tag)
unfolding receive
receive_total n c [] held small i h = absurd (omega (arith, i.total))
receive_total n c (t ∷ free) held small i h = (
  t,
  record { free = free; capacity = c },
  refl,
  ground (arith, i.each t),
  ground (arith, i.each t),
  ground (arith, i.each t),
)

-- For `n` below NoTag, while fewer than `n` requests hold a tag, `acquire` returns one; it is nobody
-- else's, it is not 0, and it is not NoTag.
pub acquire_total :
    (n : ℕ) (s : Requests)
    → n < no_tag
    → Reach n s
    → length s.held < n
    → (t : ℕ) × (ta : TagAllocator) × (acquire s.alloc ≡ some (t, ta))
      × (count t s.held ≡ 0)
      × (1 ≤ t)
      × (t < no_tag)
unfolding acquire
acquire_total n s small r h =
    receive_total n s.alloc.capacity s.alloc.free s.held small (Reach-Inv n small r) h
