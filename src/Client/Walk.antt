-- ===== src/Client/Walk.antt =====
-- client/file.go: Walk, Clone and Close; OpenFile of client/session.go from the fid of the root on;
-- cleanupFid of client/ops.go. What they do with fids.
pub mod Fids
use ninep.Prelude.{
  ℕ, List, [], ◌∷◌, Bool, true, false, not, ◌&&◌, Option, none, some, ◌==◌, length, if◌then◌else◌,
}
use ninep.Proto.Base.{Bytes}
use ninep.Proto.Types.{Qid}
use ninep.Client.File.{File, new_file}
use ninep.Client.FidAlloc.{FidAllocator, acquire, release}

-- How a Tclunk ends: with an Rclunk, an error of the server, a closed connection, or another error.
pub data Clunked : Type 0 where
  rclunk server_error conn_closed other_error : Clunked

-- What twalk, tlopen or topen, and the round trip of cleanupFid bring back. `rwalk` takes the fid, the
-- new fid and the names.
pub record Remote : Type 1 where
  pub World : Type 0
  pub rwalk : ℕ → ℕ → List Bytes → World → Option (List Qid) × World
  pub ropen : ℕ → ℕ → World → Option (Qid × ℕ) × World
  pub rclunk_fid : ℕ → World → Clunked × World

abbrev pub Opened : Remote → Type 0
Opened c = Option File × FidAllocator × c.World

unfoldable pub cleanup_with :
    (c : Remote) → ℕ → FidAllocator → Clunked × c.World → Clunked × FidAllocator × c.World
cleanup_with c fid fa (other_error, w) = (other_error, fa, w)
cleanup_with c fid fa (e, w) = (e, release fa fid, w)

unfoldable pub cleanup_fid :
    (c : Remote) → ℕ → FidAllocator → c.World → Clunked × FidAllocator × c.World
unfolding cleanup_with
cleanup_fid c fid fa w = cleanup_with c fid fa (c.rclunk_fid fid w)

unfoldable pub last_qid : Qid → List Qid → Qid
last_qid q [] = q
last_qid q (r ∷ qs) = last_qid r qs

-- A walk to `names` with the fid `fid`; `next` makes the File out of the QIDs.
unfoldable pub walked :
    (c : Remote)
    → ℕ
    → List Bytes
    → FidAllocator
    → (List Qid → FidAllocator → c.World → Opened c)
    → Option (List Qid) × c.World
    → Opened c
walked c fid names fa next (none, w) = (none, release fa fid, w)
walked c fid names fa next (some qs, w) =
    if length qs == length names then next qs fa w else (none, release fa fid, w)

-- The same with no names: `len(names) > 0 &&` passes over the test.
unfoldable pub walked_nowhere :
    (c : Remote)
    → ℕ
    → FidAllocator
    → (List Qid → FidAllocator → c.World → Opened c)
    → Option (List Qid) × c.World
    → Opened c
walked_nowhere c fid fa next (none, w) = (none, release fa fid, w)
walked_nowhere c fid fa next (some qs, w) = next qs fa w

unfoldable pub with_fid :
    (c : Remote) → Option ℕ × FidAllocator → c.World → (ℕ → FidAllocator → Opened c) → Opened c
with_fid c (none, fa) w next = (none, fa, w)
with_fid c (some fid, fa) w next = next fid fa

unfoldable pub is_empty : List Bytes → Bool
is_empty [] = true
is_empty (n ∷ ns) = false

unfoldable pub walk : (c : Remote) → File → List Bytes → FidAllocator → c.World → Opened c
unfolding with_fid walked last_qid is_empty
walk c f names fa w =
    if f.closed
    then (none, fa, w)
    else if is_empty names
    then (none, fa, w)
    else with_fid c (acquire fa) w (λ fid fb.
      walked c fid names fb (λ qs fb v. (some (new_file fid (last_qid f.qid qs) 0), fb, v))
        (c.rwalk f.fid fid names w))

unfoldable pub clone : (c : Remote) → File → FidAllocator → c.World → Opened c
unfolding with_fid walked_nowhere
clone c f fa w =
    if f.closed
    then (none, fa, w)
    else with_fid c (acquire fa) w (λ fid fb.
      walked_nowhere c fid fb
        (λ qs fb v.
          (some (record (new_file fid f.qid f.iounit) { cached_size = f.cached_size }), fb, v))
        (c.rwalk f.fid fid [] w))

-- What follows the walk of OpenFile: the fid is bound, and clunked if it cannot be opened.
unfoldable pub opened_with : (c : Remote) → ℕ → FidAllocator → Option (Qid × ℕ) × c.World → Opened c
unfolding cleanup_fid
opened_with c fid fa (none, w) = let r = cleanup_fid c fid fa w in (none, r.1, r.2)
opened_with c fid fa (some (q, iounit), w) = (some (new_file fid q iounit), fa, w)

unfoldable pub open_file : (c : Remote) → File → List Bytes → ℕ → FidAllocator → c.World → Opened c
unfolding with_fid walked walked_nowhere opened_with is_empty
open_file c root names flags fa w =
    if root.closed
    then (none, fa, w)
    else with_fid c (acquire fa) w (λ fid fb.
      let r = c.rwalk root.fid fid names w in
      let opening : List Qid → FidAllocator → c.World → Opened c =
        λ qs fd v. opened_with c fid fd (c.ropen fid flags v) in
      if is_empty names then walked_nowhere c fid fb opening r else walked c fid names fb opening r)

-- The error of Close, if any, the File and the allocator.
unfoldable pub close :
    (c : Remote) → File → FidAllocator → c.World → Option Clunked × File × FidAllocator × c.World
unfolding cleanup_fid
close c f fa w =
    let r = cleanup_fid c f.fid fa w in
    if f.closed then (none, f, fa, w) else (some r.0, record f { closed = true }, r.1, r.2)
