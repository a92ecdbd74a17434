-- ===== src/Tests/Server.antt =====
-- A server of directories: the node n has the inode n, and a walk from it leads to the node n + 1. Its
-- world is the extended attribute that was set last.
use ninep.Prelude.{
  ℕ, ◌+◌, ◌%◌, ◌^◌, ◌≡◌, refl, List, [], ◌∷◌, true, false, not, ◌&&◌, none, some, ◌==◌,
  if◌then◌else◌, arith, inr,
}
use ninep.Proto.Base.{Bytes, no_fid}
use ninep.Proto.Types.{Qid}
use ninep.Proto.Session.{Tversion}
use ninep.Proto.Walk.{Tclunk}
use ninep.Proto.Messages.{tattach, twalk}
use ninep.P9l.Messages.{shared, tmkdir}
use ninep.Proto.Base as Base
use ninep.Proto.Base.{pure, from_le}
use ninep.Proto.Decode.{read_uint32, read_uint16, read_full, read_string}
use ninep.Proto.Session.{decode_tversion}
use ninep.Server.Names.{same, all_valid, is_empty}
use ninep.Path.{clean}
use ninep.Server.Errno.{ebadf}
use ninep.Server.Handlers.Dispatch.References.{frees_fid}
use ninep.Server.Fid.{FidState, new_fid, xattr_write}
use ninep.Server.FidTable.{get, add}
use ninep.Server.Conn.{returns, Backend, Conn, fails, ◌>>=◌, ◌>>◌, guard, give, ask}
use ninep.Server.Conn.Run.{is_state, get_fid, add_fid, inc_ref_node}
use ninep.Server.Conn.Bindings.{bindings, holders}
use ninep.Server.Handlers.Dispatch.{Request, message, dispatch}
use ninep.Server.Handlers.Dispatch.Names.{CarriesBadName, bad_names_refused}
use ninep.Prelude.{length, ◌≤◌}
use ninep.P9l.Messages.{txattrcreate}
use ninep.P9l.Xattr.{Txattrcreate}
use ninep.Server.Session.Writes.{Chunks, payloads, writes, written_is_set}
use ninep.Server.Handlers.Clunk.{handle_clunk}
use ninep.Proto.Dirent.{Dirent}
use ninep.Server.Conn.Yields.{Good}
use ninep.Server.Handlers.Io.{handle_read, read_reply}
use ninep.Server.Handlers.Io.Sizes.{Fits, answers_fit}
use ninep.Server.Handlers.Readdir.{handle_readdir, readdir_reply, number_from}
use ninep.Server.Handlers.Readdir.Pages.{IsListable, read_all, pages_complete}
use ninep.Server.Session.{
  serve, cleanup, Serving, protocol_l, handle_re_version, negotiate, is_protocol_none,
}
use ninep.Server.Session.References.{
  IsFresh, references_counted, cleanup_leaves_nothing, failed_request_binds_nothing,
}
use ninep.Server.Session.Negotiation.{Answered, negotiate_lem, re_version_clears}
use ninep.Server.Session.Clunk.{clunk_closes_last}

abbrev directory : Qid
directory = record { type = 128; version = 0; path = 7 }

abbrev server : Backend
server = record {
  World = Bytes;
  errno_from_unix = λ n. n;
  attacher = none;
  anames = none;
  root = 0;
  qid = λ w n. directory;
  inode = λ n. some n;
  node_of = λ i. i;
  lookup = λ n. some (λ name w. (returns (n + 1), w));
  open_node = λ n. some (λ flags w. (returns (none, 0), w));
  read_node = λ n. some (λ count offset w. (returns (some 1, 65 ∷ []), w));
  write_node = λ n. none;
  getattr = λ n. none;
  setattr = λ n. none;
  readdir_node = λ n. none;
  raw_readdir_node = λ n. none;
  create = λ n. none;
  mkdir = λ n. none;
  symlink = λ n. none;
  link = λ n. none;
  mknod = λ n. none;
  readlink = λ n. none;
  unlink = λ n. none;
  rename = λ n. none;
  stat_fs = λ n. none;
  fsync_node = λ n. none;
  lock_node = λ n. none;
  get_lock_node = λ n. none;
  close = λ n. some (λ w. w);
  get_xattr = λ n. none;
  set_xattr = λ n. some (λ name payload flags w. (returns tt, payload));
  list_xattrs = λ n. none;
  remove_xattr = λ n. none;
  raw_xattrwalk = λ n. none;
  raw_xattrcreate = λ n. none;
  writer_write = λ x payload w. (returns none, w);
  writer_commit = λ x w. (returns tt, w);
  read_handle = λ h. none;
  write_handle = λ h. none;
  release_handle = λ h. none;
  fsync_handle = λ h. none;
  lock_handle = λ h. none;
  get_lock_handle = λ h. none;
  readdir_handle = λ h. none;
  raw_readdir_handle = λ h. none;
}

abbrev fresh : Conn Bytes
fresh = record {
  msize = 8192;
  max_fids = 4;
  fids = [];
  inodes = record { parent = λ i. none; children = λ i. []; refs = λ i. 0; prunable = λ i. false };
  world = [];
  closed = [];
  released = [];
}

fresh-IsFresh : IsFresh fresh
fresh-IsFresh = record { fids = refl; refs = λ i. refl }

abbrev attach_root : Request
attach_root =
    message
      (shared (tattach (record { fid = 1; afid = no_fid; uname = []; aname = []; n_uname = 0 })))

-- Fid 2 to the child "a" of fid 1.
abbrev walk_a : Request
walk_a = message (shared (twalk (record { fid = 1; new_fid = 2; names = (97 ∷ []) ∷ [] })))

abbrev requests : List Request
requests = attach_root ∷ walk_a ∷ []

references_counted_example :
    (serve server requests fresh).inodes.refs 1
    ≡ holders server.inode (bindings (serve server requests fresh).fids) 1 % 2 ^ 32
references_counted_example = references_counted server requests fresh fresh-IsFresh 1

cleanup_leaves_nothing_example :
    ((cleanup server true (serve server requests fresh)).fids ≡ [])
    × ((i : ℕ) → (cleanup server true (serve server requests fresh)).inodes.refs i ≡ 0)
cleanup_leaves_nothing_example = cleanup_leaves_nothing server true requests fresh fresh-IsFresh

-- The same walk again: fid 2 is in use.
walk_refused : (dispatch server walk_a (serve server requests fresh)).0 ≡ fails ebadf
unfolding dispatch ◌>>=◌ get_fid get serve ◌>>◌ guard give add_fid add inc_ref_node ask all_valid
walk_refused = refl

failed_request_binds_nothing_example :
    (bindings (dispatch server walk_a (serve server requests fresh)).1.fids
      ≡ bindings (serve server requests fresh).fids)
    × ((i : ℕ)
        → (dispatch server walk_a (serve server requests fresh)).1.inodes.refs i
          ≡ (serve server requests fresh).inodes.refs i)
unfolding frees_fid
failed_request_binds_nothing_example =
    failed_request_binds_nothing server requests fresh walk_a ebadf fresh-IsFresh refl walk_refused

abbrev fid_a : FidState ℕ ℕ
fid_a = new_fid 1 (47 ∷ 97 ∷ [])

fid_a_found : get (serve server requests fresh).fids 2 ≡ some fid_a
unfolding dispatch ◌>>=◌ get_fid get serve ◌>>◌ guard give add_fid add inc_ref_node ask all_valid
    clean
fid_a_found = refl

abbrev clunk_a : Tclunk
clunk_a = record { fid = 2 }

clunk_closes_last_example : (handle_clunk server clunk_a (serve server requests fresh)).1.closed ≡ (
    if not (is_state fid_a.state xattr_write)
      && (holders server.inode
              (bindings (handle_clunk server clunk_a (serve server requests fresh)).1.fids)
              1
            % 2 ^ 32
          == 0)
    then 1 ∷ (serve server requests fresh).closed
    else (serve server requests fresh).closed)
clunk_closes_last_example =
    clunk_closes_last server requests fresh clunk_a fid_a 1 (λ w. w) fresh-IsFresh fid_a_found refl
      refl refl

abbrev serving : Serving server
serving = record {
  conn = serve server requests fresh;
  protocol = protocol_l;
  last_negotiation = 5;
  nc_closed = false;
  written = [];
}

-- msize 4096 and "9P2000.L"
abbrev body : Bytes
body = 0 ∷ 16 ∷ 0 ∷ 0 ∷ 8 ∷ 0 ∷ 57 ∷ 80 ∷ 50 ∷ 48 ∷ 48 ∷ 48 ∷ 46 ∷ 76 ∷ []

stays_open : (handle_re_version server 65536 200000000 true true body serving).nc_closed ≡ false
unfolding handle_re_version decode_tversion Base.◌>>=◌ read_uint32 read_full pure read_string
    read_uint16 from_le same is_protocol_none
stays_open = refl

re_version_clears_example :
    IsFresh (handle_re_version server 65536 200000000 true true body serving).conn
re_version_clears_example =
    re_version_clears server requests fresh serving 65536 200000000 true true body fresh-IsFresh
      refl (ground arith) stays_open

abbrev asked : Tversion
asked = record { msize = 4096; version = 57 ∷ [] }

negotiate_lem_example : Answered 65536 asked (negotiate 65536 asked)
negotiate_lem_example = negotiate_lem 65536 asked

abbrev mkdir_dots : Request
mkdir_dots = message (tmkdir (record { dir_fid = 1; name = 46 ∷ 46 ∷ []; mode = 0; gid = 0 }))

bad_names_refused_example :
    (e : ℕ) × (dispatch server mkdir_dots (serve server requests fresh)
      ≡ (fails e, serve server requests fresh))
unfolding CarriesBadName
bad_names_refused_example =
    bad_names_refused server mkdir_dots (serve server requests fresh) (inr (inr refl))

answers_fit_example :
    Good
      (Fits 5000 8192 read_reply)
      (handle_read server (record { fid = 1; offset = 0; count = 5000 }) fresh).0
    × Good
        (Fits 9000 8192 readdir_reply)
        (handle_readdir server (record { fid = 1; offset = 0; count = 9000 }) fresh).0
answers_fit_example =
    answers_fit server fresh (record { fid = 1; offset = 0; count = 5000 })
      (record { fid = 1; offset = 0; count = 9000 }) (omega arith) (omega arith)

-- Three entries, of which a page of 60 bytes holds two.
abbrev file : ℕ → Dirent
file n = record { qid = directory; offset = 0; type = 0; name = n ∷ 46 ∷ [] }

abbrev files : List Dirent
files = file 97 ∷ file 98 ∷ file 99 ∷ []

file-IsListable : (n : ℕ) → IsListable 60 (file n)
file-IsListable n = record {
  range = record {
    qid = record { type = omega arith; version = omega arith; path = omega arith };
    offset = omega arith;
    type = omega arith;
  };
  short = omega arith;
  room = omega arith;
}

pages_complete_example : read_all 3 60 0 (number_from 0 files) ≡ number_from 0 files
pages_complete_example =
    pages_complete 3 60 files (file-IsListable 97, (file-IsListable 98, (file-IsListable 99, tt)))
      (omega arith) (omega arith)

abbrev attached : Conn Bytes
attached = serve server (attach_root ∷ []) fresh

fid_1_found : get attached.fids 1 ≡ some (new_fid 0 (47 ∷ []))
unfolding dispatch ◌>>=◌ get serve ◌>>◌ guard give add_fid add inc_ref_node ask is_empty
fid_1_found = refl

abbrev xattr : Txattrcreate
xattr = record { fid = 1; name = 97 ∷ []; attr_size = 3; flags = 0 }

abbrev parts : Chunks
parts = (0, 10 ∷ 20 ∷ []) ∷ (2, 30 ∷ []) ∷ []

msize_kept : 3 ≤ attached.msize
unfolding dispatch ◌>>=◌ get serve ◌>>◌ guard give add_fid add inc_ref_node ask
msize_kept = omega arith

parts-size : 3 ≡ length (payloads parts)
unfolding payloads
parts-size = refl

written_is_set_example :
    (handle_clunk server
      (record { fid = 1 })
      (serve server (message (txattrcreate xattr) ∷ writes 1 parts) attached)).1.world
    ≡ payloads parts
written_is_set_example =
    written_is_set server attached xattr (new_fid 0 (47 ∷ [])) parts
      (λ name payload flags w. (returns tt, payload)) fid_1_found refl refl refl refl parts-size
      (omega arith) msize_kept
