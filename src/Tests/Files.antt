-- ===== src/Tests/Files.antt =====
-- A file of three bytes behind a client, and a directory of two entries.
use ninep.Prelude.{ℕ, ◌<◌, ◌≡◌, refl, List, [], ◌∷◌, All, true, false, none, some, arith}
use ninep.Proto.Types.{SetAttr}
use ninep.Proto.Dirent.{Dirent, encode_dirents_into}
use ninep.Server.Handlers.Readdir.{number_from, view_from}
use ninep.Server.Handlers.Readdir.Pages.{IsListable}
use ninep.Memfs.File.{MemFile}
use ninep.Memfs.File.Refines.{
  Operation, reads, writes, sets, gets, run, run_expected, view, Holds, IsCall,
}
use ninep.Memfs.File.Runs.{run_refines}
use ninep.Memfs.Served.{Held, served, file_store}
use ninep.Memfs.Served.ReadBack.{read_back}
use ninep.Client.File.{Connection, File, add_int64, write_at_ctx, read_at_ctx, write_ctx, success}
use ninep.Client.File.Store.{patch}
use ninep.Client.File.Writes.{WriteEnds, write_at_lem}
use ninep.Client.File.Reads.{ReadEnds, read_at_lem}
use ninep.Client.File.Sequential.{write_ctx_lem}
use ninep.Client.ReadDir.{read_dir}
use ninep.Client.ReadDir.Ends.{SendsBytes, is_unfinished, read_dir_ends}
use ninep.Proto.Dirent.{parse_dirents, parse_loop, parse_one, header}
use ninep.Proto.Base.{Bytes, IsU8, from_le}
use ninep.Memfs.File.{zeros}
use ninep.Client.File.{max_chunk, failure, stuck_cursor}
use mathlib.Core.Path.{subst}
use ninep.Prelude.{zero, suc, ap, Option}
use ninep.Client.ReadDir.Complete.{Lists, read_dir_complete}

abbrev three_bytes : MemFile
three_bytes = record { contents = 7 ∷ 8 ∷ 9 ∷ []; mode = 420; uid = 0; gid = 0 }

three_bytes-Holds : Holds three_bytes
unfolding Holds
three_bytes-Holds = omega arith

abbrev truncation : SetAttr
truncation = record {
  valid = 8;
  mode = 0;
  uid = 0;
  gid = 0;
  size = 2;
  atime_sec = 0;
  atime_nsec = 0;
  mtime_sec = 0;
  mtime_nsec = 0;
}

abbrev calls : List Operation
calls = writes (1 ∷ 2 ∷ []) 5 ∷ reads 4 2 ∷ sets truncation ∷ gets ∷ []

calls-IsCall : All IsCall calls
unfolding IsCall
calls-IsCall = (tt, (omega arith, (tt, (tt, tt))))

run_refines_example :
    (run_expected calls (view three_bytes)
      ≡ ((run calls three_bytes).0, view (run calls three_bytes).1))
    × Holds (run calls three_bytes).1
run_refines_example = run_refines calls three_bytes calls-IsCall three_bytes-Holds

-- Chunks of one byte.
abbrev opened : File
opened = record {
  fid = 1;
  qid = record { type = 0; version = 0; path = 1 };
  iounit = 1;
  closed = false;
  offset = 2;
  cached_size = 0;
  readdir_offset = 0;
}

abbrev connection : Connection
connection = served 8192

abbrev stored : Held
stored = (three_bytes, three_bytes-Holds)

write_at_lem_example :
    WriteEnds connection
      (file_store 8192 1)
      ((file_store 8192 1).contents stored)
      2
      0
      (4 ∷ 5 ∷ [])
      (write_at_ctx connection opened (4 ∷ 5 ∷ []) 2 stored)
write_at_lem_example =
    write_at_lem connection opened (file_store 8192 1) (4 ∷ 5 ∷ []) 2 stored (omega arith)
      (omega arith) refl (omega arith) (omega arith)

read_at_lem_example :
    ReadEnds connection
      ((file_store 8192 1).contents stored)
      1
      5
      (read_at_ctx connection opened 5 1 stored)
read_at_lem_example =
    read_at_lem connection opened (file_store 8192 1) 5 1 stored (omega arith) (omega arith) refl
      (omega arith) (omega arith)

read_back_example :
    (write_at_ctx connection opened (4 ∷ 5 ∷ []) 2 stored).0 ≡ 2
    × (write_at_ctx connection opened (4 ∷ 5 ∷ []) 2 stored).1 ≡ success
    × (write_at_ctx connection opened (4 ∷ 5 ∷ []) 2 stored).2.0.contents
      ≡ patch (7 ∷ 8 ∷ 9 ∷ []) 2 (4 ∷ 5 ∷ [])
    × (read_at_ctx connection opened 2 2 (write_at_ctx connection opened (4 ∷ 5 ∷ []) 2 stored).2).0
      ≡ 4 ∷ 5 ∷ []
    × (read_at_ctx connection opened 2 2 (write_at_ctx connection opened (4 ∷ 5 ∷ []) 2 stored).2).1
      ≡ success
read_back_example =
    read_back 8192 opened (4 ∷ 5 ∷ []) 2 stored (omega arith) (omega arith) refl (omega arith)

write_ctx_lem_example :
    let r = write_at_ctx connection opened (4 ∷ 5 ∷ []) 2 stored in
    write_ctx connection opened (4 ∷ 5 ∷ []) stored
    ≡ (r, record opened { offset = add_int64 2 r.0 })
write_ctx_lem_example = write_ctx_lem connection opened (4 ∷ 5 ∷ []) stored (omega arith)

abbrev entry_of : ℕ → Dirent
entry_of b = record {
  qid = record { type = 0; version = 0; path = b };
  offset = 0;
  type = 8;
  name = b ∷ [];
}

abbrev two_entries : List Dirent
two_entries = entry_of 97 ∷ entry_of 98 ∷ []

-- A payload has room for one entry of these.
abbrev listing : Connection
listing = record {
  World = Unit;
  msize = 49;
  is_l = true;
  rwrite = λ fid offset bs w. (none, w);
  rread = λ fid offset count w. (none, w);
  rreaddir = λ fid offset count w.
      (some (encode_dirents_into count (view_from offset (number_from 0 two_entries))).0, w);
  signal_shutdown = λ w. w;
}

abbrev directory : File
directory = record opened { iounit = 0; offset = 0 }

directory-Lists : Lists listing 1 (number_from 0 two_entries)
unfolding Lists
directory-Lists offset count w = (w, refl)

entry_fits : (b : ℕ) → b < 256 → IsListable 25 (entry_of b)
entry_fits b h = record {
  range = record {
    qid = record { type = omega arith; version = omega arith; path = omega arith };
    offset = omega arith;
    type = omega arith;
  };
  short = omega arith;
  room = omega arith;
}

read_dir_complete_example :
    ((read_dir listing directory 0 tt).0.0 ≡ number_from 0 two_entries)
    × ((read_dir listing directory 0 tt).0.1 ≡ success)
unfolding max_chunk
read_dir_complete_example =
    read_dir_complete listing directory two_entries tt refl refl refl directory-Lists
      (entry_fits 97 (omega arith), (entry_fits 98 (omega arith), tt)) (omega arith)

-- A server that sends an entry with the cookie 0 again and again.
abbrev stuck : Connection
stuck = record listing { rreaddir = λ fid offset count w. (some (zeros 24), w) }

zeros-All : (n : ℕ) → All IsU8 (zeros n)
unfolding zeros
zeros-All zero = tt
zeros-All (suc n) = (omega arith, zeros-All n)

payload : Bytes → Option Bytes → Bytes
payload d none = d
payload d (some bs) = bs

stuck_sends : SendsBytes stuck
unfolding SendsBytes payload
stuck_sends fid offset count w v bs e = subst (All IsU8) (ap (λ r. payload [] r.0) e) (zeros-All 24)

read_dir_ends_example : is_unfinished (read_dir stuck directory 0 tt).0.1 ≡ false
read_dir_ends_example = read_dir_ends stuck directory 0 tt stuck_sends (omega arith)

-- The client notices.
stuck_fails : (read_dir stuck directory 0 tt).0.1 ≡ failure stuck_cursor
unfolding read_dir zeros parse_dirents parse_loop parse_one header from_le
stuck_fails = refl
