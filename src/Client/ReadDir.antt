-- ===== src/Client/ReadDir.antt =====
-- client/readdir.go: the loop of File.ReadDir; and File.Seek of client/file.go.
pub mod Ends
pub mod Complete
use ninep.Prelude.{
  ℕ, zero, suc, ◌+◌, ◌-◌, ◌%◌, ◌^◌, List, [], ◌∷◌, ◌++◌, Bool, true, false, not, ◌&&◌, Option, none,
  some, ◌==◌, ltb, leb, length, take, if◌then◌else◌,
}
use ninep.Proto.Base.{Bytes}
use ninep.Proto.Dirent.{Dirent, ParseError, parse_dirents}
use ninep.Client.File.{
  Connection, File, Ending, success, unfinished, failure, err_closed, conn_error, not_supported,
  bad_dirents, stuck_cursor, invalid_whence, negative_position, add_int64, is_negative, max_chunk,
}

-- The value and the error, and f.offset afterwards. `whence` is 0, 1 or 2 for SeekStart, SeekCurrent
-- and SeekEnd.
unfoldable pub seek_to : File → ℕ → (ℕ × Ending) × File
seek_to f abs =
    if is_negative abs
    then ((f.offset, failure negative_position), f)
    else ((abs, success), record f { offset = abs })

unfoldable pub seek : File → ℕ → ℕ → (ℕ × Ending) × File
unfolding seek_to
seek f offset whence =
    if f.closed
    then ((0, failure err_closed), f)
    else if whence == 0
    then seek_to f offset
    else if whence == 1
    then seek_to f (add_int64 f.offset offset)
    else if whence == 2
    then seek_to f (add_int64 f.cached_size offset)
    else ((f.offset, failure invalid_whence), f)

-- `n > 0 && len(entries) >= n`; an `n` that is not positive is 0 here.
unfoldable pub is_full : ℕ → List Dirent → Bool
is_full n entries = ltb 0 n && leb n (length entries)

-- The entries, the cursor, and whether the loop over a batch returned early.
pub record Batch : Type 0 where
  pub entries : List Dirent
  pub cursor : ℕ
  pub full : Bool

-- The loop over the entries of one answer.
unfoldable pub collect : ℕ → List Dirent → ℕ → List Dirent → Batch
unfolding is_full
collect n entries cursor [] = record { entries = entries; cursor = cursor; full = false }
collect n entries cursor (d ∷ ds) =
    let more = entries ++ (d ∷ []) in
    let rest = collect n more d.offset ds in
    if is_full n more
    then record { entries = take n more; cursor = d.offset; full = true }
    else rest

-- The entries, the error or none, the cursor, and the world.
abbrev pub Listing : Connection → Type 0
Listing c = List Dirent × Ending × ℕ × c.World

-- What follows a batch: `next` is the next round.
unfoldable pub advanced :
    (c : Connection) → ℕ → Batch → (List Dirent → ℕ → c.World → Listing c) → c.World → Listing c
advanced c asked b next w =
    if b.full
    then (b.entries, success, b.cursor, w)
    else if leb b.cursor asked
    then (b.entries, failure stuck_cursor, b.cursor, w)
    else next b.entries b.cursor w

unfoldable pub parsed_batch :
    (c : Connection)
    → ℕ
    → List Dirent
    → ℕ
    → List Dirent × Option ParseError
    → (List Dirent → ℕ → c.World → Listing c)
    → c.World
    → Listing c
unfolding advanced collect
parsed_batch c n entries cursor (ds, some e) next w = (entries, failure bad_dirents, cursor, w)
parsed_batch c n entries cursor ([], none) next w = (entries, success, cursor, w)
parsed_batch c n entries cursor (d ∷ ds, none) next w =
    advanced c cursor (collect n entries cursor (d ∷ ds)) next w

unfoldable pub listed :
    (c : Connection)
    → ℕ
    → List Dirent
    → ℕ
    → (List Dirent → ℕ → c.World → Listing c)
    → Option Bytes × c.World
    → Listing c
unfolding parsed_batch
listed c n entries cursor next (none, w) = (entries, failure conn_error, cursor, w)
listed c n entries cursor next (some [], w) = (entries, success, cursor, w)
listed c n entries cursor next (some (b ∷ bs), w) =
    parsed_batch c n entries cursor (parse_dirents (b ∷ bs)) next w

unfoldable pub read_dir_loop :
    (c : Connection) → ℕ → ℕ → ℕ → ℕ → List Dirent → ℕ → c.World → Listing c
unfolding is_full listed
read_dir_loop c fid m n zero entries cursor w =
    if is_full n entries
    then (take n entries, success, cursor, w)
    else (entries, unfinished, cursor, w)
read_dir_loop c fid m n (suc fuel) entries cursor w =
    let r =
      listed c n entries cursor (λ es k v. read_dir_loop c fid m n fuel es k v)
        (c.rreaddir fid cursor m w) in
    if is_full n entries then (take n entries, success, cursor, w) else r

unfoldable pub with_cursor : (c : Connection) → File → Listing c → Listing c × File
with_cursor c f (es, e, k, w) = ((es, e, k, w), record f { readdir_offset = k })

-- Each round but the last moves the cursor, a uint64, on: 2^64 rounds are enough.
unfoldable pub read_dir : (c : Connection) → File → ℕ → c.World → Listing c × File
unfolding with_cursor read_dir_loop max_chunk
read_dir c f n w =
    if f.closed
    then (([], failure err_closed, f.readdir_offset, w), f)
    else if not c.is_l
    then (([], failure not_supported, f.readdir_offset, w), f)
    else with_cursor c f (
        read_dir_loop c f.fid (max_chunk c.msize f.iounit) n (2 ^ 64 - f.readdir_offset) []
          f.readdir_offset w)
