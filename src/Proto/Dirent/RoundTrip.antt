-- ===== src/Proto/Dirent/RoundTrip.antt =====
-- proto/dirent.go: ParseDirents gives back the entries that EncodeDirentsInto packed.
use ninep.Prelude.{
  ℕ, zero, suc, ◌+◌, ◌-◌, ◌≤◌, ◌<◌, ◌≡◌, refl, ap, ◌∙◌, inl, inr, List, [], ◌∷◌, ◌++◌, none,
  append_assoc, append-nil, length, length-append, take, drop, take-append, drop-append, All, leb,
  leb→le, ltb, if◌then◌else◌, Bool-cases, false, arith,
}
use mathlib.Core.Path.{ap₂}
use native.Mathlib.Nat.{sub-zero}
use ninep.Proto.Base.{Bytes, IsU8, IsU64, put_le, from_le}
use ninep.Proto.Types.{QidInRange}
use ninep.Proto.Laws.Bytes.{from_le-put_le}
use ninep.Proto.Dirent.{
  Dirent, entry, encode_from, encode_dirents_into, encode_dirents, header, parse_one, parsed,
  parse_loop, parse_dirents, min_entry_size,
}

ge→ltb : (a b : ℕ) → b ≤ a → ltb a b ≡ false
ge→ltb a b h = ground arith

pub record DirentInRange (d : Dirent) : Type 0 where
  pub qid : QidInRange d.qid
  pub offset : IsU64 d.offset
  pub type : IsU8 d.type

header-entry :
    (d : Dirent) (rest : Bytes)
    → DirentInRange d
    → record (header (entry d ++ rest)) { name = d.name } ≡ d
unfolding header entry put_le
header-entry d rest h = λ i. record {
  qid = record {
    type = from_le-put_le 1 d.qid.type h.qid.type i;
    version = from_le-put_le 4 d.qid.version h.qid.version i;
    path = from_le-put_le 8 d.qid.path h.qid.path i;
  };
  offset = from_le-put_le 8 d.offset h.offset i;
  type = from_le-put_le 1 d.type h.type i;
  name = d.name;
}

parse_one-eq :
    (rest after : Bytes) (n : ℕ)
    → drop min_entry_size rest ≡ after
    → min_entry_size ≤ length rest
    → from_le (take 2 (drop 22 rest)) ≡ n
    → n ≤ length after
    → parse_one rest ≡ parsed (record (header rest) { name = take n after }) (drop n after)
unfolding parse_one
parse_one-eq rest after n p long q fits = rw (p, q) (rw (ge→ltb _ _ long, ge→ltb _ _ fits))

entry-after : (d : Dirent) (rest : Bytes) → drop min_entry_size (entry d ++ rest) ≡ d.name ++ rest
unfolding entry put_le
entry-after d rest = refl

pub length-entry : (d : Dirent) → length (entry d) ≡ min_entry_size + length d.name
unfolding entry put_le
length-entry d = omega arith

entry-name_len :
    (d : Dirent) (rest : Bytes)
    → length d.name ≤ 0xffff
    → from_le (take 2 (drop 22 (entry d ++ rest))) ≡ length d.name
unfolding entry put_le
entry-name_len d rest h = from_le-put_le 2 (length d.name) (omega arith)

pub parse_one-entry :
    (d : Dirent) (rest : Bytes)
    → DirentInRange d
    → length d.name ≤ 0xffff
    → parse_one (entry d ++ rest) ≡ parsed d rest
parse_one-entry d rest h s =
    parse_one-eq (entry d ++ rest) (d.name ++ rest) (length d.name) (entry-after d rest)
      (omega (arith, length-append (entry d) rest, length-entry d)) (entry-name_len d rest s)
      (omega (arith, length-append d.name rest))
    ∙ ap₂ (λ n r. parsed (record (header (entry d ++ rest)) { name = n }) r)
        (take-append d.name rest) (drop-append d.name rest)
    ∙ ap (λ e. parsed e rest) (header-entry d rest h)

-- A byte string of whole entries, and the entries that it holds.
pub entries : List Dirent → Bytes
entries [] = []
entries (d ∷ ds) = entry d ++ entries ds

parse_loop-step :
    (fuel : ℕ) (out : List Dirent) (bs : Bytes) {d : Dirent} {rest : Bytes}
    → 0 < length bs
    → parse_one bs ≡ parsed d rest
    → parse_loop (suc fuel) out bs ≡ parse_loop fuel (out ++ (d ∷ [])) rest
unfolding parse_loop
parse_loop-step fuel out [] n e = absurd (omega arith)
parse_loop-step fuel out (b ∷ bs) n e = rw (e, parse_loop)

parse_loop-entries :
    (ds : List Dirent) (fuel : ℕ) (out : List Dirent)
    → All DirentInRange ds
    → All (λ d. length d.name ≤ 0xffff) ds
    → length (entries ds) ≤ fuel
    → parse_loop fuel out (entries ds) ≡ (out ++ ds, none)
unfolding entries
parse_loop-entries [] fuel out h s f = rw (append-nil out) (unfold parse_loop in refl)
parse_loop-entries (d ∷ ds) zero out h s f =
    absurd (omega (arith, length-append (entry d) (entries ds), length-entry d))
parse_loop-entries (d ∷ ds) (suc fuel) out (hd, h) (sd, s) f =
    let size : length (entry d ++ entries ds)
        ≡ min_entry_size + length d.name + length (entries ds) =
      omega (arith, length-append (entry d) (entries ds), length-entry d) in
    parse_loop-step fuel out _ (omega (arith, size)) (parse_one-entry d (entries ds) hd sd)
    ∙ parse_loop-entries ds fuel (out ++ (d ∷ [])) h s (omega (arith, size, f))
    ∙ ap (λ l. (l, none)) (append_assoc out (d ∷ []) ds)

-- The entries whose name fits its two-byte length.
unfoldable pub short_names : List Dirent → List Dirent
short_names [] = []
short_names (d ∷ ds) =
    let rest = short_names ds in if leb (length d.name) 0xffff then d ∷ rest else rest

-- The longest front part of a list of entries that fits into `room` bytes.
unfoldable pub fitting : ℕ → List Dirent → List Dirent
fitting room [] = []
fitting room (d ∷ ds) =
    let size = min_entry_size + length d.name in
    let rest = fitting (room - size) ds in if leb size room then d ∷ rest else []

encode_from-entries :
    (dst_len off : ℕ) (ds : List Dirent)
    → off ≤ dst_len
    → encode_from dst_len off ds ≡ (
      entries (fitting (dst_len - off) (short_names ds)),
      length (fitting (dst_len - off) (short_names ds)),
    )
unfolding encode_from fitting short_names entries
encode_from-entries dst_len off [] h = refl
encode_from-entries dst_len off (d ∷ ds) h =
    let size : ℕ = min_entry_size + length d.name in
    let room : dst_len - (off + size) ≡ dst_len - off - size = omega arith in
    ground (
      arith,
      room,
      encode_from-entries dst_len off ds h,
      encode_from-entries dst_len (off + size) ds,
    )

short_names-All :
    (P : Dirent → Type 0) (ds : List Dirent)
    → All P ds
    → All P (short_names ds) × All (λ d. length d.name ≤ 0xffff) (short_names ds)
unfolding short_names
short_names-All P [] h = (tt, tt)
short_names-All P (d ∷ ds) (hd, h) = elim (Bool-cases (leb (length d.name) 0xffff)) [
  | inl short ↦ let (x, y) = short_names-All P ds h in rw short ((hd, x), (leb→le _ _ short, y))
  | inr long ↦ rw long (short_names-All P ds h)
]

fitting-All :
    (P : Dirent → Type 0) (room : ℕ) (ds : List Dirent) → All P ds → All P (fitting room ds)
unfolding fitting
fitting-All P room [] h = tt
fitting-All P room (d ∷ ds) (hd, h) =
    elim (Bool-cases (leb (min_entry_size + length d.name) room)) [
      | inl fits ↦ rw fits (hd, fitting-All P (room - (min_entry_size + length d.name)) ds h)
      | inr big ↦ rw big tt
    ]

length-entries-fitting : (room : ℕ) (ds : List Dirent) → length (entries (fitting room ds)) ≤ room
unfolding fitting entries
length-entries-fitting room [] = omega arith
length-entries-fitting room (d ∷ ds) =
    let size : ℕ = min_entry_size + length d.name in
    ground (
      arith,
      length-entries-fitting (room - size) ds,
      length-entry d,
      length-append (entry d) (entries (fitting (room - size) ds)),
    )

encode_dirents-eq :
    (ds : List Dirent) (max_bytes : ℕ)
    → let kept = fitting max_bytes (short_names ds) in
      encode_dirents ds max_bytes ≡ (entries kept, length kept)
unfolding encode_dirents encode_dirents_into
encode_dirents-eq [] max_bytes = unfold short_names fitting entries in refl
encode_dirents-eq (d ∷ ds) max_bytes =
    simp sub-zero at (encode_from-entries max_bytes 0 (d ∷ ds) (omega arith))

-- Of entries in range, EncodeDirents packs those whose name has at most 65535 bytes, in their order,
-- as many as fit into `maxBytes`, and returns how many they are; what it packs has at most `maxBytes`
-- bytes, and ParseDirents reads it back as exactly these entries, with no error.
pub parse_dirents-encode_dirents :
    (ds : List Dirent) (max_bytes : ℕ)
    → All DirentInRange ds
    → let kept = fitting max_bytes (short_names ds) in
      (parse_dirents (encode_dirents ds max_bytes).0 ≡ (kept, none))
      × ((encode_dirents ds max_bytes).1 ≡ length kept)
      × (length (encode_dirents ds max_bytes).0 ≤ max_bytes)
parse_dirents-encode_dirents ds max_bytes h =
    let (x, y) = short_names-All _ ds h in
    let bytes : Bytes = entries (fitting max_bytes (short_names ds)) in
    rw (encode_dirents-eq ds max_bytes) (
      unfold parse_dirents in
          parse_loop-entries (fitting max_bytes (short_names ds)) (length bytes) []
            (fitting-All _ max_bytes _ x) (fitting-All _ max_bytes _ y) (omega arith),
      refl,
      length-entries-fitting max_bytes (short_names ds),
    )
