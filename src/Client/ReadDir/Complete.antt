-- ===== src/Client/ReadDir/Complete.antt =====
-- client/readdir.go against the listing of server/bridge.go: ReadDir receives the whole directory.
use ninep.Prelude.{
  ℕ, zero, suc, ◌+◌, ◌^◌, ◌<◌, ◌≡◌, refl, sym, ap, ◌∙◌, List, [], ◌∷◌, ◌++◌, append_assoc,
  append-nil, true, false, none, some, leb, All, length, take, drop, length-drop, take-append-drop,
  arith,
}
use ninep.Proto.Base.{Bytes}
use ninep.Proto.Dirent.{Dirent, encode_dirents_into, encode_from, parse_dirents, parse_loop}
use ninep.Server.Handlers.Readdir.{number_from, view_from}
use ninep.Server.Handlers.Readdir.Pages.{
  IsListable, IsRest, page-take, whole-rest, IsRest-drop, last_offset, last_offset-take,
  drop-number_from, view_from-drop, length-number_from,
}
use ninep.Client.File.{Connection, File, success, max_chunk}
use ninep.Client.ReadDir.{
  is_full, collect, Listing, advanced, parsed_batch, listed, read_dir_loop, read_dir,
}

-- A server that answers Treaddir with the page of a directory that follows the cookie.
unfoldable pub Lists : (c : Connection) → ℕ → List Dirent → Type 0
Lists c fid cache =
    (offset count : ℕ) (w : c.World)
    → (v : c.World) × (c.rreaddir fid offset count w
        ≡ (some (encode_dirents_into count (view_from offset cache)).0, v))

-- With no bound on the entries, a batch is taken whole.
collect-all :
    (es : List Dirent) (k : ℕ) (ds : List Dirent)
    → (collect 0 es k ds ≡ record { entries = es ++ ds; cursor = last_offset k ds; full = false })
unfolding collect last_offset is_full
collect-all es k [] =
    ap (λ fs. record { entries = fs; cursor = k; full = false }) (sym (append-nil es))
collect-all es k (d ∷ ds) =
    collect-all (es ++ (d ∷ [])) d.offset ds
    ∙ ap (λ fs. record { entries = fs; cursor = last_offset d.offset ds; full = false })
        (append_assoc es (d ∷ []) ds)

module _ (c : Connection) (es : List Dirent) (k : ℕ) (next : List Dirent → ℕ → c.World → Listing c)
    (w : c.World) where
  -- An answer that brings entries, the last with a later cookie.
  listed-some :
      (bs : Bytes) (d : Dirent) (ds : List Dirent)
      → parse_dirents bs ≡ (d ∷ ds, none)
      → k < last_offset k (d ∷ ds)
      → (listed c 0 es k next (some bs, w) ≡ next (es ++ (d ∷ ds)) (last_offset k (d ∷ ds)) w)
  unfolding listed parsed_batch advanced parse_dirents parse_loop
  listed-some [] d ds e h = let n = ap (λ r. length r.0) e in absurd (omega arith)
  listed-some (b ∷ bs) d ds e h =
      let later : leb (last_offset k (d ∷ ds)) k ≡ false = ground arith in
      rw (e, collect-all es k (d ∷ ds), later) refl

module _ (c : Connection) (fid m : ℕ) (cache : List Dirent) (lists : Lists c fid cache) where
  IsWhole : List Dirent → Listing c → Type 0
  IsWhole ds r = (r.0 ≡ ds) × (r.1 ≡ success)

  read_dir_loop-rest :
      (fuel k : ℕ) (es r : List Dirent) (w : c.World)
      → IsRest m cache k r
      → length r < fuel
      → IsWhole (es ++ number_from k r) (read_dir_loop c fid m 0 fuel es k w)
  unfolding IsWhole read_dir_loop is_full Lists number_from
  read_dir_loop-rest zero k es r w h l = absurd (omega arith)
  read_dir_loop-rest (suc fuel) k es [] w h l =
      let (v, e) = lists k m w in
      let view = view_from-drop k cache (omega (arith, h.ends)) ∙ h.follows in
      rw (e, view) (unfold encode_dirents_into encode_from listed in (sym (append-nil es), refl))
  read_dir_loop-rest (suc fuel) k es (d ∷ r) w h l =
      let (v, e) = lists k m w in
      let (t, few, pe) = page-take m cache k d r h in
      let all = number_from k (d ∷ r) in
      let last = last_offset-take t k k (d ∷ r) few (omega (arith, h.small)) in
      let step =
        listed-some c es k (λ fs j u. read_dir_loop c fid m 0 fuel fs j u) v
          (encode_dirents_into m (view_from k cache)).0 _ _
          (whole-rest m cache k (d ∷ r) h ∙ ap (λ ds. (ds, none)) pe) (omega (arith, last)) in
      let rest =
        read_dir_loop-rest fuel (k + suc t) (es ++ take (suc t) all) (drop (suc t) (d ∷ r)) v
          (IsRest-drop m cache k (suc t) (d ∷ r) few h)
          (omega (arith, length-drop (suc t) (d ∷ r))) in
      rw (e, step, last)
        (
          rest.0
              ∙ append_assoc es (take (suc t) all) (number_from (k + suc t) (drop (suc t) (d ∷ r)))
              ∙ ap (λ ds. es ++ ds)
                  (ap (λ ds. take (suc t) all ++ ds) (sym (drop-number_from (suc t) k (d ∷ r)))
                    ∙ take-append-drop (suc t) all),
          rest.1,
        )

-- ReadDir with no bound, on an open 9P2000.L File that has not yet listed, receives every entry of a directory once, in
-- order and with no error, if the server lists it by the cookies of its own making, and each entry
-- fits a payload of the size that the client asks for, and there are fewer than 2^64.
pub read_dir_complete :
    (c : Connection) (f : File) (ds : List Dirent) (w : c.World)
    → f.closed ≡ false
    → c.is_l ≡ true
    → f.readdir_offset ≡ 0
    → Lists c f.fid (number_from 0 ds)
    → All (IsListable (max_chunk c.msize f.iounit)) ds
    → length ds < 2 ^ 64
    → ((read_dir c f 0 w).0.0 ≡ number_from 0 ds) × ((read_dir c f 0 w).0.1 ≡ success)
unfolding read_dir IsWhole
read_dir_complete c f ds w live is_l start lists fits few =
    rw (live, is_l, start)
      (read_dir_loop-rest c f.fid (max_chunk c.msize f.iounit) (number_from 0 ds) lists (2 ^ 64) 0
        [] ds w
        (record {
          follows = refl;
          ends = omega (arith, length-number_from 0 ds);
          listable = fits;
          small = omega arith;
        })
        few)
