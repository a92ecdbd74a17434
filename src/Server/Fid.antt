-- ===== src/Server/Fid.antt =====
-- server/fid.go: the state of one fid, and the calls that keep it from being released while a read
-- or write on it runs. The mutex of the state makes each call one step.
pub mod Lifecycle
use ninep.Prelude.{
  ℕ, ◌+◌, ◌-◌, ◌<◌, ◌≡◌, List, [], ◌∷◌, Bool, true, false, ◌&&◌, Option, none, some, ◌==◌,
  if◌then◌else◌,
}
use ninep.Proto.Base.{Bytes}
use ninep.Proto.Dirent.{Dirent}

-- `fidStatus`
pub data FidStatus : Type 0 where
  allocated opened xattr_read xattr_write : FidStatus

-- `fidState`. An XattrWriter is known by a number.
pub record FidState (Node Handle : Type 0) : Type 0 where
  pub node : Node
  pub path : Bytes
  pub state : FidStatus
  pub handle : Option Handle
  pub io_refs : ℕ
  pub closing : Bool
  pub close_node : Bool
  pub dir_cache : List Dirent
  pub dir_cached : Bool
  pub xattr_node : Option Node
  pub xattr_name : Bytes
  pub xattr_data : Bytes
  pub xattr_size : ℕ
  pub xattr_flags : ℕ
  pub xattr_writer : Option ℕ

module _ {Node Handle : Type 0} where
  unfoldable pub begin_io : FidState Node Handle → Bool × FidState Node Handle
  begin_io fs = if fs.closing then (false, fs) else (true, record fs { io_refs = fs.io_refs + 1 })

  -- The second part says whether `releaseNow` runs, and with which `closeNode`.
  unfoldable pub end_io : FidState Node Handle → FidState Node Handle × Option Bool
  end_io fs =
      let left = fs.io_refs - 1 in
      (record fs { io_refs = left }, if fs.closing && left == 0 then some fs.close_node else none)

  unfoldable pub finish_clunk : FidState Node Handle → Bool → FidState Node Handle × Option Bool
  finish_clunk fs close_node = (
    record fs { closing = true; close_node = close_node },
    if fs.io_refs == 0 then some close_node else none,
  )

-- A fid with the calls on it: how many I/O calls run between beginIO and endIO, whether the fid was
-- clunked and with which `closeNode`, and the calls of releaseNow so far.
pub record Uses (Node Handle : Type 0) : Type 0 where
  pub fid : FidState Node Handle
  pub running : ℕ
  pub clunked : Option Bool
  pub released : List Bool

unfoldable pub log : Option Bool → List Bool → List Bool
log none released = released
log (some close_node) released = close_node ∷ released

-- A fid as attach or walk makes it.
abbrev pub new_fid : {Node Handle : Type 0} → Node → Bytes → FidState Node Handle
new_fid node path = record {
  node = node;
  path = path;
  state = allocated;
  handle = none;
  io_refs = 0;
  closing = false;
  close_node = false;
  dir_cache = [];
  dir_cached = false;
  xattr_node = none;
  xattr_name = [];
  xattr_data = [];
  xattr_size = 0;
  xattr_flags = 0;
  xattr_writer = none;
}

abbrev pub start : {Node Handle : Type 0} → Node → Bytes → Uses Node Handle
start node path = record { fid = new_fid node path; running = 0; clunked = none; released = [] }

module _ (Node Handle : Type 0) where
  -- endIO is called once for each beginIO that said yes; finishClunk once, by the handler that took
  -- the fid out of the table.
  pub data Step (s : Uses Node Handle) : Uses Node Handle → Type 0 where
    begins :
        (fs : FidState Node Handle)
        → begin_io s.fid ≡ (true, fs)
        → Step s (record s { fid = fs; running = s.running + 1 })
    refused :
        (fs : FidState Node Handle) → begin_io s.fid ≡ (false, fs) → Step s (record s { fid = fs })
    ends :
        0 < s.running
        → Step s (record s {
          fid = (end_io s.fid).0;
          running = s.running - 1;
          released = log (end_io s.fid).1 s.released;
        })
    clunks :
        (close_node : Bool)
        → s.clunked ≡ none
        → Step s (record s {
          fid = (finish_clunk s.fid close_node).0;
          clunked = some close_node;
          released = log (finish_clunk s.fid close_node).1 s.released;
        })

  pub data Reach (node : Node) (path : Bytes) : Uses Node Handle → Type 0 where
    here : Reach node path (start node path)
    next_step : {s t : Uses Node Handle} → Reach node path s → Step s t → Reach node path t
