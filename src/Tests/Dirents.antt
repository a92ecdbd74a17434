-- ===== src/Tests/Dirents.antt =====
-- Two directory entries, and a third for which there is no room.
use ninep.Prelude.{ℕ, ◌≤◌, ◌<◌, ◌≡◌, refl, List, [], ◌∷◌, ◌^◌, length, none, arith}
use ninep.Proto.Dirent.{Dirent, encode_dirents, parse_dirents}
use ninep.Proto.Dirent.RoundTrip.{DirentInRange, short_names, fitting, parse_dirents-encode_dirents}

abbrev named : ℕ → Dirent
named c = record {
  qid = record { type = 128; version = 3; path = 2 ^ 40 };
  offset = c;
  type = 4;
  name = c ∷ [];
}

abbrev three : List Dirent
three = named 1 ∷ named 2 ∷ named 3 ∷ []

named-InRange : (c : ℕ) → c < 256 → DirentInRange (named c)
named-InRange c h = record {
  qid = record { type = omega arith; version = omega arith; path = omega arith };
  offset = omega arith;
  type = omega arith;
}

kept_two : fitting 60 (short_names three) ≡ named 1 ∷ named 2 ∷ []
unfolding fitting short_names
kept_two = refl

parse_dirents-encode_dirents_example :
    (parse_dirents (encode_dirents three 60).0 ≡ (fitting 60 (short_names three), none))
    × ((encode_dirents three 60).1 ≡ length (fitting 60 (short_names three)))
    × (length (encode_dirents three 60).0 ≤ 60)
parse_dirents-encode_dirents_example = parse_dirents-encode_dirents three 60 (
  named-InRange 1 (omega arith),
  (named-InRange 2 (omega arith), (named-InRange 3 (omega arith), tt)),
)
