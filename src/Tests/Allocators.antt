-- ===== src/Tests/Allocators.antt =====
-- The allocators of fids and tags after a few calls.
use ninep.Prelude.{length, ℕ, ◌+◌, ◌<◌, ◌≤◌, ◌≡◌, refl, [], ◌∷◌, some, count, remove, arith}
use ninep.Proto.Base.{no_fid, no_tag}
use ninep.Client.FidAlloc.{FidAllocator, Session}
use ninep.Client.FidAlloc.Safety.{acquire_unheld}
use ninep.Client.Tags.{TagAllocator, Requests}
use ninep.Client.Tags.Conservation.{in_range, tags_conserved, acquire_total}
use ninep.Client.FidAlloc as FidAlloc
use ninep.Client.Tags as Tags

abbrev fids_left : FidAllocator
fids_left = record { next = 3; reuse = 1 ∷ [] }

-- Fids 1 and 2 are taken, and 1 is given back.
abbrev one_held : Session
one_held = record { alloc = fids_left; held = 2 ∷ [] }

one_held-Reach : FidAlloc.Reach one_held
unfolding FidAlloc.acquire FidAlloc.acquire_from FidAlloc.fresh FidAlloc.release
    FidAlloc.new_fid_allocator remove
one_held-Reach =
    FidAlloc.next_step
      (FidAlloc.next_step (FidAlloc.next_step FidAlloc.here (FidAlloc.acquires 1 _ refl))
        (FidAlloc.acquires 2 _ refl))
      (FidAlloc.releases 1 (omega arith))

reused : FidAlloc.acquire fids_left ≡ (some 1, record { next = 3; reuse = [] })
unfolding FidAlloc.acquire FidAlloc.acquire_from
reused = refl

acquire_unheld_example : (count 1 (2 ∷ []) ≡ 0) × (1 ≤ 1) × (1 < no_fid)
acquire_unheld_example =
    acquire_unheld one_held 1 (record { next = 3; reuse = [] }) one_held-Reach reused

-- Of three tags, 1 and 2 are taken, and 1 is given back.
abbrev tag_held : Requests
tag_held = record { alloc = record { free = 3 ∷ 1 ∷ []; capacity = 3 }; held = 2 ∷ [] }

tag_held-Reach : Tags.Reach 3 tag_held
unfolding Tags.acquire Tags.receive Tags.release Tags.new_tag_allocator Tags.seed remove
tag_held-Reach =
    Tags.next_step
      (Tags.next_step (Tags.next_step Tags.here (Tags.acquires 1 _ refl)) (Tags.acquires 2 _ refl))
      (Tags.releases 1 (omega arith))

tags_conserved_example :
    (count 1 (3 ∷ 1 ∷ []) + count 1 (2 ∷ []) ≡ in_range 1 3 1)
    × (length tag_held.alloc.free + length tag_held.held ≡ 3)
tags_conserved_example = tags_conserved 3 tag_held 1 (omega arith) tag_held-Reach

acquire_total_example :
    (t : ℕ) × (ta : TagAllocator) × (Tags.acquire tag_held.alloc ≡ some (t, ta))
    × (count t tag_held.held ≡ 0)
    × (1 ≤ t)
    × (t < no_tag)
acquire_total_example = acquire_total 3 tag_held (omega arith) tag_held-Reach (omega arith)
