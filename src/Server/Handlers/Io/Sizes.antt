-- ===== src/Server/Handlers/Io/Sizes.antt =====
-- How large the answers of handleRead and handleReaddir are.
use ninep.Prelude.{
  ℕ, ◌+◌, ◌-◌, ◌%◌, ◌^◌, ◌<◌, ◌≤◌, ◌≡◌, refl, List, [], ◌∷◌, true, Option, none, some, Option-cases,
  Bool-cases, inl, inr, length, length-take_le, length-append, drop, leb, ltb, arith,
}
use ninep.Proto.Base.{Bytes, header_size}
use ninep.Proto.Dirent.{Dirent, encode_dirents_into, encode_from, entry, min_entry_size}
use ninep.Proto.Dirent.RoundTrip.{length-entry}
use ninep.Proto.Transfer.{Tread}
use ninep.P9l.Xattr.{Treaddir}
use ninep.Server.FidTable.{get}
use ninep.Server.Fid.{opened}
use ninep.Server.Errno.{ebadf, enosys}
use ninep.Server.FidTable.Cases.{if_cases}
use ninep.Server.Conn.{
  Backend, Conn, Call, Filled, Reply, Outcome, gives, fails, Handler, fail, guard, ◌>>◌, ◌>>=◌,
  proceed, need, ask,
}
use ninep.Server.Conn.Run.{Fid, get_fid, is_state, max_payload}
use ninep.Server.Conn.Yields.{
  Good, good, bad, Yields, Yields-give, Yields-fail, Yields-bind, Yields-then, Yields-after,
  Yields-if, Yields-io,
}
use ninep.Server.Handlers.Io.{
  of_handle, min, valid_read_count, count_of, fill_pooled, read_xattr, read_opened, read_fid,
  handle_read, read_reply,
}
use ninep.Server.Handlers.Readdir.{
  readdir_reply, readdir_simple, readdir_by, readdir_opened, handle_readdir, view_from,
}

-- An answer that carries at most `bound` bytes.
abbrev pub Carries : (Bytes → Reply) → ℕ → Reply → Type 0
Carries to_reply bound r = (p : Bytes) × (r ≡ to_reply p) × (length p ≤ bound)

valid_count : (n : Option ℕ) (count : ℕ) → valid_read_count n count ≡ true → count_of n ≤ count
unfolding valid_read_count count_of
valid_count none count h = cc
valid_count (some n) count h = ground arith

encode_from-fits :
    (dst_len off : ℕ) (ds : List Dirent)
    → off ≤ dst_len
    → off + length (encode_from dst_len off ds).0 ≤ dst_len
unfolding encode_from
encode_from-fits dst_len off [] h = omega arith
encode_from-fits dst_len off (d ∷ ds) h =
    let size = min_entry_size + length d.name in
    if_cases {A = Bytes × ℕ} (λ r. off + length r.0 ≤ dst_len) (ltb 0xffff (length d.name))
      (λ e. encode_from-fits dst_len off ds h)
      (λ e.
        if_cases {A = Bytes × ℕ} (λ r. off + length r.0 ≤ dst_len) (ltb dst_len (off + size))
          (λ f. omega arith)
          (λ f.
            let room : off + size ≤ dst_len = ground arith in
            omega (
              arith,
              encode_from-fits dst_len (off + size) ds room,
              length-entry d,
              length-append (entry d) (encode_from dst_len (off + size) ds).0,
            )))

end_within : (offset count n : ℕ) → min ((offset + count) % 2 ^ 64) n - offset ≤ count
end_within offset count n = ground arith

module _ (b : Backend) where
  fill_pooled-Yields :
      (count : ℕ) (read : ℕ → Call b.World Filled)
      → Yields (λ p. length p ≤ count) (fill_pooled b count read)
  unfolding fill_pooled
  fill_pooled-Yields count read = Yields-after _ _ _ λ r.
      Yields-then _ (valid_read_count r.0 count) _ _ λ h.
        Yields-give _ _ (omega (arith, length-take_le (count_of r.0) r.1, valid_count r.0 count h))

  read_opened-Yields :
      (m : Tread) (fs : Fid) (count : ℕ)
      → Yields (Carries read_reply count) (read_opened b m fs count)
  unfolding read_opened
  read_opened-Yields m fs count = Yields-after _ _ _ λ read.
      Yields-bind _ _ (fill_pooled-Yields count (λ n. read n m.offset))
        (λ p h. Yields-give _ _ (p, refl, h))

  length-read_xattr : (fs : Fid) (offset count : ℕ) → length (read_xattr b fs offset count) ≤ count
  unfolding read_xattr
  length-read_xattr fs offset count =
      if_cases {A = Bytes} (λ p. length p ≤ count) (leb (length fs.xattr_data) offset)
        (λ e. omega arith)
        (λ e. omega (
          arith,
          length-take_le (min ((offset + count) % 2 ^ 64) (length fs.xattr_data) - offset)
              (drop offset fs.xattr_data),
          end_within offset count (length fs.xattr_data),
        ))

  read_fid-Yields :
      (m : Tread) (fs : Fid) (count : ℕ) → Yields (Carries read_reply count) (read_fid b m fs count)
  unfolding read_fid
  read_fid-Yields m fs count =
      Yields-if _ _
        (Yields-give _ _
          (read_xattr b fs m.offset count, refl, length-read_xattr fs m.offset count))
        (Yields-then _ _ _ _ λ h. Yields-io b _ m.fid fs (read_opened-Yields m fs count))

  readdir_by-Yields :
      (m : Treaddir) (fs : Fid) (count : ℕ) (raw : Option (ℕ → ℕ → Call b.World Filled))
      (simple : Option (Call b.World (List Dirent))) (otherwise : Handler b.World Reply)
      → Yields (Carries readdir_reply count) otherwise
      → Yields (Carries readdir_reply count) (readdir_by b m fs count raw simple otherwise)
  unfolding readdir_by readdir_simple encode_dirents_into
  readdir_by-Yields m fs count (some raw) simple otherwise s =
      Yields-bind _ _ (fill_pooled-Yields count (λ n. raw n m.offset))
        (λ p h. Yields-give _ _ (p, refl, h))
  readdir_by-Yields m fs count none (some readdir) otherwise s = Yields-after _ _ _ λ cache.
      Yields-give _ _
        (_, refl, omega (arith, encode_from-fits count 0 (view_from m.offset cache) (omega arith)))
  readdir_by-Yields m fs count none none otherwise s = s

  readdir_opened-Yields :
      (m : Treaddir) (count : ℕ) → Yields (Carries readdir_reply count) (readdir_opened b m count)
  unfolding readdir_opened
  readdir_opened-Yields m count = Yields-after _ _ _ λ fs.
      readdir_by-Yields m fs count (of_handle fs.handle b.raw_readdir_handle)
        (of_handle fs.handle b.readdir_handle)
        (readdir_by b m fs count (b.raw_readdir_node fs.node) (b.readdir_node fs.node)
          (fail enosys))
        (readdir_by-Yields m fs count (b.raw_readdir_node fs.node) (b.readdir_node fs.node)
          (fail enosys) (Yields-fail _ enosys))

-- What an answer to a read or a listing is: an error, or a payload of at most the number of bytes asked
-- for, that with the header and the four bytes of its length is a frame of at most `msize` bytes.
pub record Fits (asked msize : ℕ) (to_reply : Bytes → Reply) (r : Reply) : Type 0 where
  pub payload : Bytes
  pub carries : r ≡ to_reply payload
  pub wanted : length payload ≤ asked
  pub frame : header_size + 4 + length payload ≤ msize

Fits-both :
    (asked msize : ℕ) (to_reply : Bytes → Reply) (o : Outcome Reply) (c : ℕ)
    → c ≤ asked
    → header_size + 4 + c ≤ msize
    → Good (Carries to_reply c) o
    → Good (Fits asked msize to_reply) o
Fits-both asked msize to_reply (gives r) c a h (good x (p, e, l)) =
    good r (record { payload = p; carries = e; wanted = omega arith; frame = omega arith })
Fits-both asked msize to_reply (fails e) c a h (bad n) = bad e

module _ (b : Backend) (c : Conn b.World) where
  abbrev cut : ℕ → ℕ
  cut asked = min asked (max_payload c)

  Fits-cut :
      (asked : ℕ) (to_reply : Bytes → Reply) (o : Outcome Reply)
      → 11 ≤ c.msize
      → c.msize < 2 ^ 32
      → Good (Carries to_reply (cut asked)) o
      → Good (Fits asked c.msize to_reply) o
  unfolding max_payload
  Fits-cut asked to_reply o low high =
      Fits-both asked c.msize to_reply o (cut asked) (ground arith) (ground arith)

  read-Fits :
      (m : Tread)
      → 11 ≤ c.msize
      → c.msize < 2 ^ 32
      → Good (Fits m.count c.msize read_reply) (handle_read b m c).0
  unfolding handle_read get_fid need ask ◌>>=◌ proceed
  read-Fits m low high = elim (Option-cases (get c.fids m.fid)) [
    | inl e ↦ rw e (bad ebadf)
    | inr (fs, e) ↦
        rw e
          (Fits-cut m.count read_reply _ low high ((read_fid-Yields b m fs (cut m.count)).yields c))
  ]

  readdir-Fits :
      (m : Treaddir)
      → 11 ≤ c.msize
      → c.msize < 2 ^ 32
      → Good (Fits m.count c.msize readdir_reply) (handle_readdir b m c).0
  unfolding handle_readdir get_fid need ask guard ◌>>=◌ ◌>>◌ proceed
  readdir-Fits m low high = elim (Option-cases (get c.fids m.fid)) [
    | inl e ↦ rw e (bad ebadf)
    | inr (fs, e) ↦ elim (Bool-cases (is_state fs.state opened)) [
      | inl t ↦
          rw (e, t)
            (Fits-cut m.count readdir_reply _ low high
              ((Yields-io b _ m.fid fs (readdir_opened-Yields b m (cut m.count))).yields c))
      | inr t ↦ rw (e, t) (bad ebadf)
    ]
  ]

-- The answer of handleRead to any Tread, and of handleReaddir to any Treaddir, on a connection whose
-- msize is at least 11 and has 32 bits, is an error, or a payload of at most the number of bytes asked
-- for that makes a frame of at most msize bytes. What the node or the handle reports does not matter.
pub answers_fit :
    (b : Backend) (c : Conn b.World) (m : Tread) (d : Treaddir)
    → 11 ≤ c.msize
    → c.msize < 2 ^ 32
    → Good (Fits m.count c.msize read_reply) (handle_read b m c).0
      × Good (Fits d.count c.msize readdir_reply) (handle_readdir b d c).0
answers_fit b c m d low high = (read-Fits b c m low high, readdir-Fits b c d low high)
