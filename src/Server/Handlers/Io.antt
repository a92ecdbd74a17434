-- ===== src/Server/Handlers/Io.antt =====
-- server/bridge.go: handleRead, handleWrite and handleFsync.
pub mod Sizes
use ninep.Prelude.{
  ℕ, ◌+◌, ◌-◌, ◌%◌, ◌^◌, [], ◌++◌, Bool, false, Option, none, some, length, take, drop, leb,
  if◌then◌else◌,
}
use ninep.Proto.Base.{Bytes}
use ninep.Proto.Transfer.{Tread, Twrite}
use ninep.Proto.Messages.{rread, rwrite}
use ninep.P9l.Messages.{shared, rfsync}
use ninep.P9l.Xattr.{Tfsync}
use ninep.Server.Errno.{ebadf, eio, enosys, enospc}
use ninep.Server.Fid.{opened, xattr_read, xattr_write}
use ninep.Server.Conn.{
  Call, Filled, Backend, Reply, reply, Handler, give, fail, ◌>>=◌, ◌>>◌, guard, need, ask,
}
use ninep.Server.Conn.Run.{Fid, call, get_fid, put_fid, with_io, is_state, max_payload}

abbrev pub min : ℕ → ℕ → ℕ
min a b = if leb a b then a else b

-- validReadCount, on the number that the reader reports
unfoldable pub valid_read_count : Option ℕ → ℕ → Bool
valid_read_count none size = false
valid_read_count (some n) size = leb n size

unfoldable pub valid_write_count : Option ℕ → ℕ → Bool
valid_write_count none payload_len = false
valid_write_count (some count) payload_len = leb count payload_len

unfoldable pub count_of : Option ℕ → ℕ
count_of none = 0
count_of (some n) = n

-- The handle's capability if there is a handle that has it.
unfoldable pub of_handle : {A : Type 0} → Option ℕ → (ℕ → Option A) → Option A
of_handle none f = none
of_handle (some h) f = f h

unfoldable pub or_node : {A : Type 0} → Option A → Option A → Option A
or_node (some a) o = some a
or_node none o = o

abbrev pub read_reply : Bytes → Reply
read_reply payload = reply (shared (rread (record { payload = payload })))

abbrev pub write_reply : ℕ → Reply
write_reply count = reply (shared (rwrite (record { count = count })))

module _ (b : Backend) where
  open b use {World}

  -- fillPooled: a buffer of `count` bytes and the part of it that `read` reports as filled.
  unfoldable pub fill_pooled : ℕ → (ℕ → Call World Filled) → Handler World Bytes
  unfolding valid_read_count count_of
  fill_pooled count read = do
    r ← call b (read count)
    guard (valid_read_count r.0 count) eio
    give (take (count_of r.0) r.1)

  -- The read of a fid that holds an extended attribute: `data[offset:end]`.
  unfoldable pub read_xattr : Fid → ℕ → ℕ → Bytes
  read_xattr fs offset count =
      if leb (length fs.xattr_data) offset
      then []
      else take (min ((offset + count) % 2 ^ 64) (length fs.xattr_data) - offset)
          (drop offset fs.xattr_data)

  unfoldable pub read_opened : Tread → Fid → ℕ → Handler World Reply
  unfolding fill_pooled of_handle or_node
  read_opened m fs count = do
    read ← need (or_node (of_handle fs.handle b.read_handle) (b.read_node fs.node)) enosys
    payload ← fill_pooled count (λ n. read n m.offset)
    give (read_reply payload)

  unfoldable pub read_fid : Tread → Fid → ℕ → Handler World Reply
  unfolding read_xattr read_opened
  read_fid m fs count =
      if is_state fs.state xattr_read
      then give (read_reply (read_xattr fs m.offset count))
      else do guard (is_state fs.state opened) ebadf; with_io b m.fid fs (read_opened m fs count)

  unfoldable pub handle_read : Tread → Handler World Reply
  unfolding read_fid
  handle_read m = do
    fs ← get_fid m.fid
    count ← ask (λ c. min m.count (max_payload c))
    read_fid m fs count

  unfoldable pub write_xattr : Option ℕ → Twrite → Fid → Handler World Reply
  unfolding valid_write_count count_of
  write_xattr (some writer) m fs = do
    n ← call b (b.writer_write writer m.payload)
    guard (valid_write_count n (length m.payload)) eio
    give (write_reply (count_of n % 2 ^ 32))
  write_xattr none m fs = do
    guard (leb (length fs.xattr_data + length m.payload) fs.xattr_size) enospc
    put_fid m.fid (record fs { xattr_data = fs.xattr_data ++ m.payload })
    give (write_reply (length m.payload % 2 ^ 32))

  unfoldable pub write_opened : Twrite → Fid → Handler World Reply
  unfolding of_handle or_node
  write_opened m fs = do
    write_it ← need (or_node (of_handle fs.handle b.write_handle) (b.write_node fs.node)) enosys
    count ← call b (write_it m.payload m.offset)
    guard (leb count (length m.payload)) eio
    give (write_reply count)

  unfoldable pub write_fid : Twrite → Fid → Handler World Reply
  unfolding write_xattr write_opened
  write_fid m fs =
      if is_state fs.state xattr_write
      then (if fs.closing then fail ebadf else write_xattr fs.xattr_writer m fs)
      else do guard (is_state fs.state opened) ebadf; with_io b m.fid fs (write_opened m fs)

  unfoldable pub handle_write : Twrite → Handler World Reply
  unfolding write_fid
  handle_write m = do fs ← get_fid m.fid; write_fid m fs

  unfoldable pub fsync_opened : Fid → Handler World Reply
  unfolding of_handle or_node
  fsync_opened fs = do
    sync ← need (or_node (of_handle fs.handle b.fsync_handle) (b.fsync_node fs.node)) enosys
    _ ← call b sync
    give (reply (rfsync (record {})))

  unfoldable pub handle_fsync : Tfsync → Handler World Reply
  unfolding fsync_opened
  handle_fsync m = do
    fs ← get_fid m.fid
    guard (is_state fs.state opened) ebadf
    with_io b m.fid fs (fsync_opened fs)
