-- ===== src/Server/Fid/Lifecycle.antt =====
-- server/fid.go: the calls of releaseNow, over all histories of a fid.
use ninep.Prelude.{
  ℕ, ◌+◌, ◌-◌, ◌<◌, ◌≡◌, refl, sym, not, List, [], ◌∷◌, Bool, true, false, Option, none, some, ◌==◌,
  if◌then◌else◌, arith,
}
use ninep.Proto.Base.{Bytes}
use ninep.Server.Fid.{
  FidState, begin_io, end_io, finish_clunk, Uses, log, start, Step, begins, refused, ends, clunks,
  Reach, here, next_step,
}

-- The calls of releaseNow that are due: one with the clunk's `closeNode`, once nothing runs.
unfoldable pub due : Option Bool → ℕ → List Bool
due none running = []
due (some close_node) running = if running == 0 then close_node ∷ [] else []

unfoldable pub is_clunked : Option Bool → Bool
is_clunked none = false
is_clunked (some close_node) = true

unfoldable pub clunk_close : Option Bool → Bool
clunk_close none = false
clunk_close (some close_node) = close_node

module _ {Node Handle : Type 0} where
  pub record Inv (s : Uses Node Handle) : Type 0 where
    pub refs : s.fid.io_refs ≡ s.running
    pub closing : s.fid.closing ≡ is_clunked s.clunked
    pub close_node : s.fid.close_node ≡ clunk_close s.clunked
    pub released : s.released ≡ due s.clunked s.running

  start-Inv : (node : Node) (path : Bytes) → Inv (start node path)
  unfolding is_clunked clunk_close due
  start-Inv node path = record { refs = refl; closing = refl; close_node = refl; released = refl }

  begins-Inv :
      (fid : FidState Node Handle) (running : ℕ) (clunked : Option Bool) (released : List Bool)
      (fs : FidState Node Handle)
      → begin_io fid ≡ (true, fs)
      → Inv (record { fid = fid; running = running; clunked = clunked; released = released })
      → Inv (record { fid = fs; running = running + 1; clunked = clunked; released = released })
  unfolding begin_io is_clunked clunk_close due
  begins-Inv fid running none released fs e i = record {
    refs = ground (arith, i.refs, i.closing);
    closing = ground (arith, i.closing);
    close_node = ground (arith, i.closing, i.close_node);
    released = i.released;
  }
  begins-Inv fid running (some b) released fs e i = absurd (ground (arith, i.closing))

  refused-same : (fid fs : FidState Node Handle) → begin_io fid ≡ (false, fs) → fid ≡ fs
  unfolding begin_io
  refused-same fid fs e = ground arith

  ends-Inv :
      (fid : FidState Node Handle) (running : ℕ) (clunked : Option Bool) (released : List Bool)
      → 0 < running
      → Inv (record { fid = fid; running = running; clunked = clunked; released = released })
      → Inv (record {
        fid = (end_io fid).0;
        running = running - 1;
        clunked = clunked;
        released = log (end_io fid).1 released;
      })
  unfolding end_io is_clunked clunk_close due log
  ends-Inv fid running none released h i = record {
    refs = ground (arith, i.refs);
    closing = i.closing;
    close_node = i.close_node;
    released = ground (arith, i.closing, i.released);
  }
  ends-Inv fid running (some b) released h i = record {
    refs = ground (arith, i.refs);
    closing = i.closing;
    close_node = i.close_node;
    released = ground (arith, i.refs, i.closing, i.close_node, i.released);
  }

  clunks-Inv :
      (fid : FidState Node Handle) (running : ℕ) (released : List Bool) (b : Bool)
      → Inv (record { fid = fid; running = running; clunked = none; released = released })
      → Inv (record {
        fid = (finish_clunk fid b).0;
        running = running;
        clunked = some b;
        released = log (finish_clunk fid b).1 released;
      })
  unfolding finish_clunk is_clunked clunk_close due log
  clunks-Inv fid running released b i = record {
    refs = i.refs;
    closing = refl;
    close_node = refl;
    released = ground (arith, i.refs, i.released);
  }

  Step-Inv : {s t : Uses Node Handle} → Step Node Handle s t → Inv s → Inv t
  Step-Inv {s} (begins fs e) i = begins-Inv s.fid s.running s.clunked s.released fs e i
  Step-Inv {s} (refused fs e) i = rw (sym (refused-same s.fid fs e)) i
  Step-Inv {s} (ends h) i = ends-Inv s.fid s.running s.clunked s.released h i
  Step-Inv {s} (clunks close_node h) i =
      clunks-Inv s.fid s.running s.released close_node (rw (sym h) i)

  Reach-Inv :
      {node : Node} {path : Bytes} {s : Uses Node Handle} → Reach Node Handle node path s → Inv s
  Reach-Inv {node} {path} here = start-Inv node path
  Reach-Inv (next_step r st) = Step-Inv st (Reach-Inv r)

-- However beginIO, endIO and finishClunk interleave on a fid, with one endIO for each beginIO that
-- said yes and one finishClunk at most: the calls of releaseNow so far are none before the clunk, none
-- while a read or write still runs, and after that exactly one, with the `closeNode` of the clunk; and
-- beginIO says yes exactly before the clunk.
pub released_once :
    (Node Handle : Type 0) (node : Node) (path : Bytes) (s : Uses Node Handle)
    → Reach Node Handle node path s
    → (s.released ≡ due s.clunked s.running) × ((begin_io s.fid).0 ≡ not (is_clunked s.clunked))
unfolding begin_io
released_once Node Handle node path s r =
    let i = Reach-Inv r in (i.released, ground (arith, i.closing))
