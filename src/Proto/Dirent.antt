-- ===== src/Proto/Dirent.antt =====
-- proto/dirent.go: directory entries packed back to back, and the loop that takes them apart.
pub mod RoundTrip
use ninep.Prelude.{
  ℕ, zero, suc, ◌+◌, ◌-◌, List, [], ◌∷◌, ◌++◌, Option, none, some, length, take, drop, leb, ltb,
  if◌then◌else◌,
}
use ninep.Proto.Base.{Bytes, put_le, from_le, qid_size}
use ninep.Proto.Types.{Qid}

pub record Dirent : Type 0 where
  pub qid : Qid
  pub offset : ℕ
  pub type : ℕ
  pub name : Bytes

-- qid[13] + offset[8] + type[1] + len[2]
abbrev pub min_entry_size : ℕ
min_entry_size = qid_size + 8 + 1 + 2

unfoldable pub entry : Dirent → Bytes
entry d =
    put_le 1 d.qid.type
    ++ (put_le 4 d.qid.version
        ++ (put_le 8 d.qid.path
            ++ (put_le 8 d.offset ++ (put_le 1 d.type ++ (put_le 2 (length d.name) ++ d.name)))))

-- `dst` counts by its length only; what is written is `dst[:off]`, and comes with the count. A name
-- that is too long is passed over (`continue`), and the first entry with no room ends the loop.
unfoldable pub encode_from : ℕ → ℕ → List Dirent → Bytes × ℕ
encode_from dst_len off [] = ([], 0)
encode_from dst_len off (d ∷ ds) =
    let skip = encode_from dst_len off ds in
    let entry_size = min_entry_size + length d.name in
    let more = encode_from dst_len (off + entry_size) ds in
    if ltb 0xffff (length d.name)
    then skip
    else if ltb dst_len (off + entry_size)
    then ([], 0)
    else (entry d ++ more.0, more.1 + 1)

unfoldable pub encode_dirents_into : ℕ → List Dirent → Bytes × ℕ
encode_dirents_into dst_len ds = encode_from dst_len 0 ds

-- The bytes are copied out of a pooled buffer of `maxBytes`.
unfoldable pub encode_dirents : List Dirent → ℕ → Bytes × ℕ
encode_dirents [] max_bytes = ([], 0)
encode_dirents (d ∷ ds) max_bytes = encode_dirents_into max_bytes (d ∷ ds)

pub data ParseError : Type 0 where
  truncated_header name_too_long out_of_fuel : ParseError

pub data Step : Type 0 where
  parsed : Dirent → Bytes → Step
  stopped : ParseError → Step

unfoldable pub header : Bytes → Dirent
header rest = record {
  qid = record {
    type = from_le (take 1 rest);
    version = from_le (take 4 (drop 1 rest));
    path = from_le (take 8 (drop 5 rest));
  };
  offset = from_le (take 8 (drop 13 rest));
  type = from_le (take 1 (drop 21 rest));
  name = [];
}

-- One round of the loop of ParseDirents, on the bytes from `off` on.
unfoldable pub parse_one : Bytes → Step
parse_one rest =
    let name_len = from_le (take 2 (drop 22 rest)) in
    let after = drop min_entry_size rest in
    if ltb (length rest) min_entry_size
    then stopped truncated_header
    else if ltb (length after) name_len
    then stopped name_too_long
    else parsed (record (header rest) { name = take name_len after }) (drop name_len after)

-- The entries decoded so far, and the error if there is one. Each round takes 24 bytes or more, so
-- as many rounds as there are bytes are enough: `out_of_fuel` never shows.
unfoldable pub parse_loop : ℕ → List Dirent → Bytes → List Dirent × Option ParseError
parse_loop fuel out [] = (out, none)
parse_loop zero out (b ∷ bs) = (out, some out_of_fuel)
parse_loop (suc fuel) out (b ∷ bs) = elim (parse_one (b ∷ bs)) [
  | parsed d rest ↦ parse_loop fuel (out ++ (d ∷ [])) rest
  | stopped e ↦ (out, some e)
]

unfoldable pub parse_dirents : Bytes → List Dirent × Option ParseError
parse_dirents bytes = parse_loop (length bytes) [] bytes
