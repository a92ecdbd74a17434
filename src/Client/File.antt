-- ===== src/Client/File.antt =====
-- client/file.go: a File, its chunks, and its positional and sequential reads and writes, with twrite
-- of client/ops.go. A File is used by one caller at a time.
pub mod Store
pub mod Chunks
pub mod Writes
pub mod Reads
pub mod Sequential
use ninep.Prelude.{
  ℕ, zero, suc, ◌+◌, ◌-◌, ◌%◌, ◌^◌, [], ◌∷◌, ◌++◌, Bool, true, false, not, ◌&&◌, Option, none, some,
  ◌==◌, ltb, leb, length, take, drop, if◌then◌else◌,
}
use ninep.Proto.Base.{Bytes, max_data_size}
use ninep.Proto.Types.{Qid}
use ninep.Server.Handlers.Io.{min}

-- What a File asks of its Conn: the answers that rtrip, readAtZeroCopy and roundTrip bring back, `none`
-- for an error. `World` is everything they change: the connection, and the server behind it.
-- `rwrite` is the count of an Rwrite, for a fid, an offset and the bytes; `rread` and `rreaddir` take a
-- fid, an offset and a count.
pub record Connection : Type 1 where
  pub World : Type 0
  pub msize : ℕ
  pub is_l : Bool
  pub rwrite : ℕ → ℕ → Bytes → World → Option ℕ × World
  pub rread : ℕ → ℕ → ℕ → World → Option Bytes × World
  pub rreaddir : ℕ → ℕ → ℕ → World → Option Bytes × World
  pub signal_shutdown : World → World

-- An int64 is kept as the uint64 of the same bits.
pub record File : Type 0 where
  pub fid : ℕ
  pub qid : Qid
  pub iounit : ℕ
  pub closed : Bool
  pub offset : ℕ
  pub cached_size : ℕ
  pub readdir_offset : ℕ

unfoldable pub new_file : ℕ → Qid → ℕ → File
new_file fid qid iounit = record {
  fid = fid;
  qid = qid;
  iounit = iounit;
  closed = false;
  offset = 0;
  cached_size = 0;
  readdir_offset = 0;
}

abbrev pub io_frame_overhead : ℕ
io_frame_overhead = 24

-- `a - b` of two uint32.
abbrev pub sub_uint32 : ℕ → ℕ → ℕ
sub_uint32 a b = (a + (2 ^ 32 - b)) % 2 ^ 32

unfoldable pub max_chunk : ℕ → ℕ → ℕ
max_chunk msize iounit =
    let limit = sub_uint32 msize io_frame_overhead in
    min (if not (iounit == 0) && ltb iounit limit then iounit else limit) max_data_size

unfoldable pub chunk_len : ℕ → ℕ → ℕ
chunk_len n m = if ltb m n then m else n % 2 ^ 32

-- `x < 0` of an int64.
unfoldable pub is_negative : ℕ → Bool
is_negative x = leb (2 ^ 63) x

abbrev pub add_int64 : ℕ → ℕ → ℕ
add_int64 a b = (a + b) % 2 ^ 64

-- The errors of a File, those of the connection as one.
pub data Fault : Type 0 where
  err_closed negative_offset invalid_whence negative_position short_write eof conn_error
        not_supported bad_dirents stuck_cursor :
      Fault

-- How a call ends: with an error or none. `unfinished` is a loop that used up its fuel.
pub data Ending : Type 0 where
  success unfinished : Ending
  failure : Fault → Ending

-- Twrite, with the check of the count that the server reports.
unfoldable pub checked_count : (c : Connection) → ℕ → Option ℕ × c.World → Option ℕ × c.World
checked_count c size (none, w) = (none, w)
checked_count c size (some n, w) = if ltb size n then (none, c.signal_shutdown w) else (some n, w)

unfoldable pub twrite : (c : Connection) → ℕ → ℕ → Bytes → c.World → Option ℕ × c.World
unfolding checked_count
twrite c fid offset bs w = checked_count c (length bs) (c.rwrite fid offset bs w)

abbrev pub Written : Connection → Type 0
Written c = ℕ × Ending × c.World

-- What follows a Twrite of `size` bytes in the loop of WriteAtCtx; `next` is the next round.
unfoldable pub wrote_chunk :
    (c : Connection) → ℕ → ℕ → (ℕ → c.World → Written c) → Option ℕ × c.World → Written c
wrote_chunk c total size next (none, w) = (total, failure conn_error, w)
wrote_chunk c total size next (some n, w) =
    if ltb n size then (total + n, failure short_write, w) else next n w

-- The loop of WriteAtCtx from `total` on, `p` being what is left, at the offset `off`.
unfoldable pub write_chunks : (c : Connection) → ℕ → ℕ → ℕ → Bytes → ℕ → ℕ → c.World → Written c
unfolding wrote_chunk
write_chunks c fid m fuel [] off total w = (total, success, w)
write_chunks c fid m zero (b ∷ p) off total w = (total, unfinished, w)
write_chunks c fid m (suc fuel) (b ∷ p) off total w =
    let chunk = if ltb m (length (b ∷ p)) then take m (b ∷ p) else b ∷ p in
    wrote_chunk c total (length chunk)
      (λ n v. write_chunks c fid m fuel (drop n (b ∷ p)) off (total + n) v)
      (twrite c fid (add_int64 off total) chunk w)

unfoldable pub is_empty : Bytes → Bool
is_empty [] = true
is_empty (b ∷ bs) = false

-- The fuel is the length: a round that goes on takes a byte or more.
unfoldable pub write_at_ctx : (c : Connection) → File → Bytes → ℕ → c.World → Written c
unfolding write_chunks
write_at_ctx c f p off w =
    if f.closed
    then (0, failure err_closed, w)
    else if is_empty p
    then (0, success, w)
    else if is_negative off
    then (0, failure negative_offset, w)
    else write_chunks c f.fid (max_chunk c.msize f.iounit) (length p) p off 0 w

-- What follows a Twrite of `size` bytes in the loop of WriteCtx: the File moves on by the count before the
-- count is compared.
unfoldable pub wrote_next :
    (c : Connection)
    → File
    → ℕ
    → ℕ
    → (ℕ → File → c.World → Written c × File)
    → Option ℕ × c.World
    → Written c × File
wrote_next c f total size next (none, w) = ((total, failure conn_error, w), f)
wrote_next c f total size next (some n, w) =
    let g : File = record f { offset = add_int64 f.offset n } in
    if ltb n size then ((total + n, failure short_write, w), g) else next n g w

-- The loop of WriteCtx from `total` on, `p` being what is left, which goes to the offset of the File.
unfoldable pub write_rounds : (c : Connection) → ℕ → File → Bytes → ℕ → c.World → Written c × File
unfolding wrote_next
write_rounds c fuel f [] total w = ((total, success, w), f)
write_rounds c zero f (b ∷ p) total w = ((total, unfinished, w), f)
write_rounds c (suc fuel) f (b ∷ p) total w =
    let m = max_chunk c.msize f.iounit in
    let chunk = if ltb m (length (b ∷ p)) then take m (b ∷ p) else b ∷ p in
    wrote_next c f total (length chunk)
      (λ n g v. write_rounds c fuel g (drop n (b ∷ p)) (total + n) v)
      (twrite c f.fid f.offset chunk w)

unfoldable pub write_ctx : (c : Connection) → File → Bytes → c.World → Written c × File
unfolding write_rounds
write_ctx c f p w =
    if f.closed
    then ((0, failure err_closed, w), f)
    else if is_empty p
    then ((0, success, w), f)
    else if is_negative f.offset
    then ((0, failure negative_offset, w), f)
    else write_rounds c (length p) f p 0 w

-- The bytes at the start of the buffer that were read.
abbrev pub Read : Connection → Type 0
Read c = Bytes × Ending × c.World

-- What follows a Tread in the loop of ReadAtCtx.
unfoldable pub read_chunk :
    (c : Connection) → Bytes → (Bytes → c.World → Read c) → Option Bytes × c.World → Read c
read_chunk c p next (none, w) = (p, failure conn_error, w)
read_chunk c p next (some [], w) = (p, failure eof, w)
read_chunk c p next (some (b ∷ bs), w) = next (b ∷ bs) w

-- The loop of ReadAtCtx: `left` bytes of the buffer are not yet filled, and `p` is filled.
unfoldable pub read_chunks : (c : Connection) → ℕ → ℕ → ℕ → ℕ → ℕ → Bytes → c.World → Read c
unfolding read_chunk
read_chunks c fid m fuel zero off p w = (p, success, w)
read_chunks c fid m zero (suc left) off p w = (p, unfinished, w)
read_chunks c fid m (suc fuel) (suc left) off p w =
    read_chunk c p (λ bs v. read_chunks c fid m fuel (suc left - length bs) off (p ++ bs) v)
      (c.rread fid (add_int64 off (length p)) (chunk_len (suc left) m) w)

-- `size` is the length of the buffer.
unfoldable pub read_at_ctx : (c : Connection) → File → ℕ → ℕ → c.World → Read c
unfolding read_chunks
read_at_ctx c f size off w =
    if f.closed
    then ([], failure err_closed, w)
    else if size == 0
    then ([], success, w)
    else if is_negative off
    then ([], failure negative_offset, w)
    else read_chunks c f.fid (max_chunk c.msize f.iounit) size size off [] w

unfoldable pub read_once : (c : Connection) → File → Option Bytes × c.World → Read c × File
read_once c f (none, w) = (([], failure conn_error, w), f)
read_once c f (some [], w) = (([], failure eof, w), f)
read_once c f (some (b ∷ bs), w) =
    ((b ∷ bs, success, w), record f { offset = add_int64 f.offset (length (b ∷ bs)) })

unfoldable pub read_ctx : (c : Connection) → File → ℕ → c.World → Read c × File
unfolding read_once chunk_len max_chunk
read_ctx c f size w =
    if f.closed
    then (([], failure err_closed, w), f)
    else if size == 0
    then (([], success, w), f)
    else if is_negative f.offset
    then (([], failure negative_offset, w), f)
    else read_once c f (c.rread f.fid f.offset (chunk_len size (max_chunk c.msize f.iounit)) w)
