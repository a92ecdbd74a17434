-- ===== src/Server/Handlers/Readdir/Pages.antt =====
-- A client that lists a directory page by page: each Treaddir asks for what follows the last cookie.
use ninep.Prelude.{
  ℕ, zero, suc, ◌+◌, ◌-◌, ◌%◌, ◌^◌, ◌<◌, ◌≤◌, ◌≡◌, refl, sym, ap, ◌∙◌, List, [], ◌∷◌, ◌++◌, none,
  Bool-cases, inl, inr, All, length, take, drop, take-append-drop, length-drop, All-drop, leb,
  arith,
}
use ninep.Proto.Dirent.{
  Dirent, min_entry_size, encode_dirents, encode_dirents_into, encode_from, parse_dirents,
}
use ninep.Proto.Dirent.RoundTrip.{DirentInRange, fitting, short_names, parse_dirents-encode_dirents}
use ninep.Server.Handlers.Readdir.{number_from, view_from}

-- An entry that one page has room for.
pub record IsListable (count : ℕ) (d : Dirent) : Type 0 where
  pub range : DirentInRange d
  pub short : length d.name ≤ 0xffff
  pub room : min_entry_size + length d.name ≤ count

-- The payload of the answer, as the client reads it.
unfoldable pub page : ℕ → ℕ → List Dirent → List Dirent
unfolding view_from
page count offset cache = (parse_dirents (encode_dirents_into count (view_from offset cache)).0).0

unfoldable pub last_offset : ℕ → List Dirent → ℕ
last_offset offset [] = offset
last_offset offset (d ∷ ds) = last_offset d.offset ds

-- The next request, until a page is empty.
unfoldable pub follow : List Dirent → List Dirent → List Dirent
follow [] rest = []
follow (d ∷ ds) rest = (d ∷ ds) ++ rest

unfoldable pub read_all : ℕ → ℕ → ℕ → List Dirent → List Dirent
unfolding page last_offset follow
read_all zero count offset cache = []
read_all (suc fuel) count offset cache =
    let ds = page count offset cache in
    follow ds (read_all fuel count (last_offset offset ds) cache)

encode_into-eq :
    (count : ℕ) (ds : List Dirent) → encode_dirents_into count ds ≡ encode_dirents ds count
unfolding encode_dirents_into encode_dirents encode_from
encode_into-eq count [] = refl
encode_into-eq count (d ∷ ds) = refl

short_names-All : (ds : List Dirent) → All (λ d. length d.name ≤ 0xffff) ds → short_names ds ≡ ds
unfolding short_names
short_names-All [] h = refl
short_names-All (d ∷ ds) (hd, h) = ground (arith, short_names-All ds h)

fitting-take : (room : ℕ) (ds : List Dirent) → fitting room ds ≡ take (length (fitting room ds)) ds
unfolding fitting
fitting-take room [] = refl
fitting-take room (d ∷ ds) = elim (Bool-cases (leb (min_entry_size + length d.name) room)) [
  | inl e ↦ rw e (ap (λ l. d ∷ l) (fitting-take (room - (min_entry_size + length d.name)) ds))
  | inr e ↦ rw e refl
]

fitting-first :
    (room : ℕ) (d : Dirent) (ds : List Dirent)
    → min_entry_size + length d.name ≤ room
    → fitting room (d ∷ ds) ≡ d ∷ fitting (room - (min_entry_size + length d.name)) ds
unfolding fitting
fitting-first room d ds h = ground arith

length-fitting : (room : ℕ) (ds : List Dirent) → length (fitting room ds) ≤ length ds
unfolding fitting
length-fitting room [] = omega arith
length-fitting room (d ∷ ds) =
    ground (arith, length-fitting (room - (min_entry_size + length d.name)) ds)

pub drop-number_from :
    (m k : ℕ) (ds : List Dirent) → drop m (number_from k ds) ≡ number_from (k + m) (drop m ds)
unfolding number_from
drop-number_from zero k ds = ap (λ n. number_from n ds) (omega arith)
drop-number_from (suc m) k [] = refl
drop-number_from (suc m) k (d ∷ ds) =
    drop-number_from m (k + 1) ds ∙ ap (λ n. number_from n (drop m ds)) (omega arith)

pub length-number_from : (k : ℕ) (ds : List Dirent) → length (number_from k ds) ≡ length ds
unfolding number_from
length-number_from k [] = refl
length-number_from k (d ∷ ds) = omega (arith, length-number_from (k + 1) ds)

pub last_offset-take :
    (m k offset : ℕ) (ds : List Dirent)
    → suc m ≤ length ds
    → k + suc m < 2 ^ 64
    → last_offset offset (take (suc m) (number_from k ds)) ≡ k + suc m
unfolding number_from last_offset
last_offset-take m k offset [] h n = absurd (omega arith)
last_offset-take zero k offset (d ∷ ds) h n = omega arith
last_offset-take (suc m) k offset (d ∷ ds) h n =
    last_offset-take m (k + 1) _ ds (omega arith) (omega arith) ∙ omega arith

number_from-All :
    (count k : ℕ) (ds : List Dirent)
    → All (IsListable count) ds
    → All (IsListable count) (number_from k ds)
unfolding number_from
number_from-All count k [] h = tt
number_from-All count k (d ∷ ds) (hd, h) = (
  record {
    range = record { qid = hd.range.qid; offset = omega arith; type = hd.range.type };
    short = hd.short;
    room = hd.room;
  },
  number_from-All count (k + 1) ds h,
)

All-map :
    {P Q : Dirent → Type 0} (ds : List Dirent) → ((d : Dirent) → P d → Q d) → All P ds → All Q ds
All-map [] f h = tt
All-map (d ∷ ds) f (hd, h) = (f d hd, All-map ds f h)

-- What a page holds: the entries that follow the cookie, as many as fit.
page-fitting :
    (count offset : ℕ) (cache : List Dirent)
    → All (IsListable count) (view_from offset cache)
    → page count offset cache ≡ fitting count (view_from offset cache)
unfolding page
page-fitting count offset cache h =
    let view = view_from offset cache in
    ap (λ r. (parse_dirents r.0).0) (encode_into-eq count view)
    ∙ ap (λ r. r.0) (parse_dirents-encode_dirents view count (All-map view (λ d p. p.range) h)).0
    ∙ ap (fitting count) (short_names-All view (All-map view (λ d p. p.short) h))

-- A page is taken apart with no error.
page-whole :
    (count offset : ℕ) (cache : List Dirent)
    → All (IsListable count) (view_from offset cache)
    → (parse_dirents (encode_dirents_into count (view_from offset cache)).0
        ≡ (page count offset cache, none))
unfolding page
page-whole count offset cache h =
    let view = view_from offset cache in
    let e = ap (λ r. parse_dirents r.0) (encode_into-eq count view) in
    let whole = e ∙ (parse_dirents-encode_dirents view count (All-map view (λ d p. p.range) h)).0 in
    whole ∙ ap (λ ds. (ds, none)) (sym (ap (λ r. r.0) whole))

drop-empty : (m : ℕ) → drop {A = Dirent} m [] ≡ []
drop-empty zero = refl
drop-empty (suc m) = refl

drop-add : (k m : ℕ) (ds : List Dirent) → drop (k + m) ds ≡ drop m (drop k ds)
drop-add zero m ds = ap (λ n. drop n ds) (omega arith)
drop-add (suc k) m [] = drop-empty (suc k + m) ∙ sym (drop-empty m)
drop-add (suc k) m (d ∷ ds) =
    let e : suc k + m ≡ suc (k + m) = omega arith in ap (λ n. drop n (d ∷ ds)) e ∙ drop-add k m ds

pub view_from-drop :
    (k : ℕ) (cache : List Dirent) → k ≤ length cache → view_from k cache ≡ drop k cache
unfolding view_from
view_from-drop k cache h = ap (λ n. drop n cache) (ground arith)

module _ (count : ℕ) (cache : List Dirent) where
  -- The listing from the cookie `k` on, where what follows `k` are the entries `r`.
  pub record IsRest (k : ℕ) (r : List Dirent) : Type 0 where
    pub follows : drop k cache ≡ number_from k r
    pub ends : k + length r ≡ length cache
    pub listable : All (IsListable count) r
    pub small : k + length r < 2 ^ 64

  pub page-rest :
      (k : ℕ) (r : List Dirent) → IsRest k r → page count k cache ≡ fitting count (number_from k r)
  page-rest k r h =
      let e = view_from-drop k cache (omega (arith, h.ends)) ∙ h.follows in
      page-fitting count k cache (rw e (number_from-All count k r h.listable))
      ∙ ap (fitting count) e

  pub whole-rest :
      (k : ℕ) (r : List Dirent)
      → IsRest k r
      → (parse_dirents (encode_dirents_into count (view_from k cache)).0
          ≡ (page count k cache, none))
  whole-rest k r h =
      let e = view_from-drop k cache (omega (arith, h.ends)) ∙ h.follows in
      page-whole count k cache (rw e (number_from-All count k r h.listable))

  pub IsRest-drop :
      (k m : ℕ) (r : List Dirent) → m ≤ length r → IsRest k r → IsRest (k + m) (drop m r)
  IsRest-drop k m r l h = record {
    follows = drop-add k m cache ∙ ap (drop m) h.follows ∙ drop-number_from m k r;
    ends = omega (arith, h.ends, length-drop m r);
    listable = All-drop _ m r h.listable;
    small = omega (arith, h.small, length-drop m r);
  }

  -- At least one entry fits, so that a page makes progress.
  pub page-take :
      (k : ℕ) (d : Dirent) (r : List Dirent)
      → IsRest k (d ∷ r)
      → (m : ℕ) × (suc m ≤ length (d ∷ r))
        × (page count k cache ≡ take (suc m) (number_from k (d ∷ r)))
  unfolding number_from
  page-take k d r h =
      let left = count - (min_entry_size + length d.name) in
      let tail = number_from (k + 1) r in
      let kept = fitting left tail in
      (
        length kept,
        omega (arith, length-fitting left tail, length-number_from (k + 1) r),
        page-rest k (d ∷ r) h
            ∙ fitting-first count (record d { offset = (k + 1) % 2 ^ 64 }) tail h.listable.0.room
            ∙ ap (λ t. record d { offset = (k + 1) % 2 ^ 64 } ∷ t) (fitting-take left tail),
      )

  read_all-rest :
      (fuel k : ℕ) (r : List Dirent)
      → IsRest k r
      → length r ≤ fuel
      → read_all fuel count k cache ≡ number_from k r
  unfolding read_all number_from follow
  read_all-rest zero k [] h l = refl
  read_all-rest zero k (d ∷ r) h l = absurd (omega arith)
  read_all-rest (suc fuel) k [] h l = rw (page-rest k [] h) (unfold fitting in refl)
  read_all-rest (suc fuel) k (d ∷ r) h l =
      let (m, l', e) = page-take k d r h in
      rw (e, last_offset-take m k k (d ∷ r) l' (omega (arith, h.small)))
        (ap (λ t. take (suc m) (number_from k (d ∷ r)) ++ t)
            (read_all-rest fuel (k + suc m) (drop (suc m) (d ∷ r))
                (IsRest-drop k (suc m) (d ∷ r) l' h) (omega (arith, length-drop (suc m) (d ∷ r)))
              ∙ sym (drop-number_from (suc m) k (d ∷ r)))
          ∙ take-append-drop (suc m) (number_from k (d ∷ r)))

-- A directory of fewer than 2^64 entries, each with a name of at most 65535 bytes and small enough for
-- a payload of `count` bytes, is listed by asking again with the offset of the last entry received. As
-- many requests as there are entries are enough to receive all of them, each once and in their order,
-- numbered from 1; and further requests bring nothing more.
pub pages_complete :
    (fuel count : ℕ) (ds : List Dirent)
    → All (IsListable count) ds
    → length ds < 2 ^ 64
    → length ds ≤ fuel
    → read_all fuel count 0 (number_from 0 ds) ≡ number_from 0 ds
pages_complete fuel count ds h n l =
    read_all-rest count (number_from 0 ds) fuel 0 ds
      (record {
        follows = refl;
        ends = omega (arith, length-number_from 0 ds);
        listable = h;
        small = omega arith;
      })
      l
