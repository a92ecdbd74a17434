-- ===== src/Server/Session/Writes.antt =====
-- An extended attribute is written: Txattrcreate, any number of Twrite, and Tclunk.
use ninep.Prelude.{
  ℕ, ◌+◌, ◌<◌, ◌≤◌, ◌≡◌, refl, sym, ap, ◌∙◌, List, [], ◌∷◌, ◌++◌, append_assoc, append-nil, true,
  false, none, some, length, length-append, leb, ◌==◌, arith,
}
use mathlib.Core.Path.{subst}
use ninep.Proto.Base.{Bytes}
use ninep.Proto.Messages.{twrite}
use ninep.P9l.Messages.{shared, txattrcreate}
use ninep.P9l.Xattr.{Txattrcreate}
use ninep.Server.Fid.{allocated, xattr_write}
use ninep.Server.FidTable.{get, write, clunk, is_allocated}
use ninep.Server.FidTable.Lookup.{get-write}
use ninep.Server.Conn.{
  Answer, returns, errors, Call, Backend, Conn, Reply, Handler, give, ◌>>=◌, ◌>>◌, proceed, guard,
  need, ask,
}
use ninep.Server.Conn.Run.{Fid, get_fid, put_fid, call, answered, dec_ref_node}
use ninep.Server.Handlers.Io.{write_xattr, write_fid, handle_write}
use ninep.Server.Handlers.Xattr.{
  to_xattr_write, start_write, can_commit, xattrcreate_by, handle_xattrcreate,
}
use ninep.Server.Handlers.Clunk.{
  take_fid, clunked, commit_simple, commit_xattr, clunk_state, xattr_node_of, handle_clunk,
}
use ninep.Server.Handlers.Dispatch.{Request, message, dispatch, dispatch_l, dispatch_shared}
use ninep.Server.Session.{serve}

-- Pairs of an offset and the bytes to write there.
abbrev pub Chunks : Type 0
Chunks = List (ℕ × Bytes)

unfoldable pub payloads : Chunks → Bytes
payloads [] = []
payloads ((offset, p) ∷ ps) = p ++ payloads ps

abbrev pub write_at : ℕ → ℕ → Bytes → Request
write_at fid offset p =
    message (shared (twrite (record { fid = fid; offset = offset; payload = p })))

unfoldable pub writes : ℕ → Chunks → List Request
writes fid [] = []
writes fid ((offset, p) ∷ ps) = write_at fid offset p ∷ writes fid ps

-- A fid that accumulates an attribute for the simple interface.
record IsWriting (fs : Fid) : Type 0 where
  state : fs.state ≡ xattr_write
  live : fs.closing ≡ false
  simple : fs.xattr_writer ≡ none

module _ (b : Backend) where
  open b use {World}

  write-append :
      (c : Conn World) (fid : ℕ) (fs : Fid) (offset : ℕ) (p : Bytes)
      → get c.fids fid ≡ some fs
      → IsWriting fs
      → length fs.xattr_data + length p ≤ fs.xattr_size
      → (dispatch b (write_at fid offset p) c).1
        ≡ record c { fids = write fid (record fs { xattr_data = fs.xattr_data ++ p }) c.fids }
  unfolding dispatch dispatch_l dispatch_shared handle_write write_fid write_xattr get_fid need
      put_fid guard give ◌>>=◌ ◌>>◌ proceed
  write-append c fid fs offset p e h room =
      let r : leb (length fs.xattr_data + length p) fs.xattr_size ≡ true = ground arith in
      rw (e, h.state, h.live, h.simple, r) refl

  writes-append :
      (ps : Chunks) (c : Conn World) (fid : ℕ) (fs : Fid)
      → get c.fids fid ≡ some fs
      → IsWriting fs
      → length fs.xattr_data + length (payloads ps) ≤ fs.xattr_size
      → (get (serve b (writes fid ps) c).fids fid
          ≡ some (record fs { xattr_data = fs.xattr_data ++ payloads ps }))
        × ((serve b (writes fid ps) c).world ≡ c.world)
  unfolding serve writes payloads
  writes-append [] c fid fs e h room =
      (e ∙ ap (λ d. some (record fs { xattr_data = d })) (sym (append-nil fs.xattr_data)), refl)
  writes-append ((offset, p) ∷ ps) c fid fs e h room =
      let s = write-append c fid fs offset p e h (omega (arith, length-append p (payloads ps))) in
      let gs : Fid = record fs { xattr_data = fs.xattr_data ++ p } in
      let d : Conn World = record c { fids = write fid gs c.fids } in
      let found : get d.fids fid ≡ some gs = get-write c.fids fid fid fs gs e ∙ ground arith in
      let (x, y) =
        writes-append ps d fid gs found
          (record { state = h.state; live = h.live; simple = h.simple })
          (omega (arith, length-append p (payloads ps), length-append fs.xattr_data p)) in
      let t : serve b (writes fid ((offset, p) ∷ ps)) c ≡ serve b (writes fid ps) d =
        ap (serve b (writes fid ps)) s in
      subst
        (λ z.
          (get z.fids fid
            ≡ some (record fs { xattr_data = fs.xattr_data ++ payloads ((offset, p) ∷ ps) }))
          × (z.world ≡ c.world))
        (sym t)
        (
          x
              ∙ ap (λ q. some (record fs { xattr_data = q }))
                  (append_assoc fs.xattr_data p (payloads ps)),
          y,
        )

  create-write :
      (c : Conn World) (m : Txattrcreate) (fs : Fid)
      (set : Bytes → Bytes → ℕ → Call World (Unit {0}))
      → get c.fids m.fid ≡ some fs
      → fs.state ≡ allocated
      → b.raw_xattrcreate fs.node ≡ none
      → b.set_xattr fs.node ≡ some set
      → 0 < m.attr_size
      → m.attr_size ≤ c.msize
      → (dispatch b (message (txattrcreate m)) c).1
        ≡ record c { fids = write m.fid (to_xattr_write b m fs none) c.fids }
  unfolding dispatch dispatch_l handle_xattrcreate xattrcreate_by start_write can_commit get_fid
      need put_fid guard ask give ◌>>=◌ ◌>>◌ proceed is_allocated
  create-write c m fs set e new raw setter low high =
      let l : leb m.attr_size c.msize ≡ true = ground arith in
      let z : (m.attr_size == 0) ≡ false = ground arith in rw (e, new, l, raw, z, setter) refl

  call-world :
      (r : Answer (Unit {0}) × World) (c : Conn World) (f : Unit {0} → Handler World Reply)
      → ((u : Unit {0}) (d : Conn World) → (f u d).1.world ≡ d.world)
      → (proceed (answered b r c) f).1.world ≡ r.1
  unfolding answered proceed
  call-world (returns a, w) c f s = s a _
  call-world (errors e, w) c f s = refl

  clunk-set :
      (c : Conn World) (fid : ℕ) (fs : Fid) (set : Bytes → Bytes → ℕ → Call World (Unit {0}))
      → get c.fids fid ≡ some fs
      → IsWriting fs
      → b.set_xattr (xattr_node_of b fs) ≡ some set
      → length fs.xattr_data ≡ fs.xattr_size
      → 0 < fs.xattr_size
      → (handle_clunk b (record { fid = fid }) c).1.world
        ≡ (set fs.xattr_name fs.xattr_data fs.xattr_flags c.world).1
  unfolding handle_clunk take_fid clunked clunk dec_ref_node clunk_state commit_xattr commit_simple
      need guard call give ◌>>=◌ ◌>>◌ proceed
  clunk-set c fid fs set e h setter full low =
      let z : (fs.xattr_size == 0) ≡ false = ground arith in
      let q : (length fs.xattr_data == fs.xattr_size) ≡ true = ground arith in
      rw (e, h.state, h.simple, z, q, setter) (call-world _ _ _ (λ u d. refl))

-- A fid is bound to a node and not yet opened, and the node has SetXattr and no HandleXattrcreate. Its
-- client sends a Txattrcreate for a size that is not 0 and at most msize, then Twrites whose payloads
-- have that size together, in any division and at any offsets, and a Tclunk. Then the world is as one
-- call of the node's SetXattr leaves it, with the name, the flags, and the payloads one after the other.
pub written_is_set :
    (b : Backend) (c : Conn b.World) (m : Txattrcreate) (fs : Fid) (ps : Chunks)
    (set : Bytes → Bytes → ℕ → Call b.World (Unit {0}))
    → get c.fids m.fid ≡ some fs
    → fs.state ≡ allocated
    → fs.closing ≡ false
    → b.raw_xattrcreate fs.node ≡ none
    → b.set_xattr fs.node ≡ some set
    → m.attr_size ≡ length (payloads ps)
    → 0 < m.attr_size
    → m.attr_size ≤ c.msize
    → (handle_clunk b
        (record { fid = m.fid })
        (serve b (message (txattrcreate m) ∷ writes m.fid ps) c)).1.world
      ≡ (set m.name (payloads ps) m.flags c.world).1
unfolding serve to_xattr_write xattr_node_of
written_is_set b c m fs ps set e new live raw setter size low high =
    let gs = to_xattr_write b m fs none in
    let d : Conn b.World = record c { fids = write m.fid gs c.fids } in
    let found : get d.fids m.fid ≡ some gs = get-write c.fids m.fid m.fid fs gs e ∙ ground arith in
    let w : IsWriting gs = record { state = refl; live = live; simple = refl } in
    let (x, y) = writes-append b ps d m.fid gs found w (omega (arith, size)) in
    let t : serve b (message (txattrcreate m) ∷ writes m.fid ps) c ≡ serve b (writes m.fid ps) d =
      ap (serve b (writes m.fid ps)) (create-write b c m fs set e new raw setter low high) in
    subst
      (λ z.
        (handle_clunk b (record { fid = m.fid }) z).1.world
        ≡ (set m.name (payloads ps) m.flags c.world).1)
      (sym t)
      (clunk-set b (serve b (writes m.fid ps) d) m.fid (record gs { xattr_data = payloads ps }) set
          x (record { state = refl; live = live; simple = refl }) setter (sym size) low
        ∙ ap (λ v. (set m.name (payloads ps) m.flags v).1) y)
