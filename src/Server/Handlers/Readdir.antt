-- ===== src/Server/Handlers/Readdir.antt =====
-- server/bridge.go: handleReaddir and readdirSimple.
pub mod Pages
use ninep.Prelude.{
  ℕ, ◌+◌, ◌%◌, ◌^◌, List, [], ◌∷◌, true, false, not, ◌||◌, Option, none, some, length, drop, ◌==◌,
  if◌then◌else◌,
}
use ninep.Proto.Base.{Bytes}
use ninep.Proto.Dirent.{Dirent, encode_dirents_into}
use ninep.P9l.Xattr.{Treaddir}
use ninep.P9l.Messages.{rreaddir}
use ninep.Server.Errno.{ebadf, enosys}
use ninep.Server.Fid.{opened}
use ninep.Server.Conn.{
  Call, Filled, Backend, Reply, reply, Handler, give, fail, ◌>>=◌, ◌>>◌, guard, ask,
}
use ninep.Server.Conn.Run.{Fid, call, get_fid, put_fid, with_io, is_state, max_payload}
use ninep.Server.Handlers.Io.{min, of_handle, fill_pooled}

abbrev pub readdir_reply : Bytes → Reply
readdir_reply payload = reply (rreaddir (record { payload = payload }))

-- Offset cookies, from `i + 1` on.
unfoldable pub number_from : ℕ → List Dirent → List Dirent
number_from i [] = []
number_from i (d ∷ ds) = record d { offset = (i + 1) % 2 ^ 64 } ∷ number_from (i + 1) ds

-- `start := len(cache); if offset < start { start = offset }; cache[start:]`
unfoldable pub view_from : ℕ → List Dirent → List Dirent
view_from offset cache = drop (min offset (length cache)) cache

module _ (b : Backend) where
  open b use {World}

  unfoldable pub fetch : ℕ → Fid → Call World (List Dirent) → Handler World (List Dirent)
  unfolding number_from
  fetch fid fs readdir = do
    put_fid fid (record fs { dir_cache = []; dir_cached = false })
    dirents ← call b readdir
    put_fid fid (record fs { dir_cache = number_from 0 dirents; dir_cached = true })
    give (number_from 0 dirents)

  -- The listing to serve from: a new one at offset 0 and where there is none.
  unfoldable pub listing : Treaddir → Fid → Call World (List Dirent) → Handler World (List Dirent)
  unfolding fetch
  listing m fs readdir =
      if m.offset == 0 || not fs.dir_cached then fetch m.fid fs readdir else give fs.dir_cache

  unfoldable pub readdir_simple :
      Treaddir → Fid → ℕ → Call World (List Dirent) → Handler World Reply
  unfolding listing view_from
  readdir_simple m fs count readdir = do
    cache ← listing m fs readdir
    give (readdir_reply (encode_dirents_into count (view_from m.offset cache)).0)

  -- The interfaces in their order: raw before simple, for the handle and then for the node.
  unfoldable pub readdir_by :
      Treaddir
      → Fid
      → ℕ
      → Option (ℕ → ℕ → Call World Filled)
      → Option (Call World (List Dirent))
      → Handler World Reply
      → Handler World Reply
  unfolding fill_pooled readdir_simple
  readdir_by m fs count (some raw) simple otherwise = do
    payload ← fill_pooled b count (λ n. raw n m.offset)
    give (readdir_reply payload)
  readdir_by m fs count none (some readdir) otherwise = readdir_simple m fs count readdir
  readdir_by m fs count none none otherwise = otherwise

  -- `fs` here is the state with the call registered by beginIO.
  unfoldable pub readdir_opened : Treaddir → ℕ → Handler World Reply
  unfolding readdir_by of_handle
  readdir_opened m count = do
    fs ← get_fid m.fid
    readdir_by m fs count (of_handle fs.handle b.raw_readdir_handle)
        (of_handle fs.handle b.readdir_handle)
        (readdir_by m fs count (b.raw_readdir_node fs.node) (b.readdir_node fs.node) (fail enosys))

  unfoldable pub handle_readdir : Treaddir → Handler World Reply
  unfolding readdir_opened
  handle_readdir m = do
    fs ← get_fid m.fid
    guard (is_state fs.state opened) ebadf
    count ← ask (λ c. min m.count (max_payload c))
    with_io b m.fid fs (readdir_opened m count)
