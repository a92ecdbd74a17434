-- ===== src/Tests/Stats.antt =====
-- A short stat, and one of 65534 bytes.
use ninep.Prelude.{ℕ, zero, suc, ◌≡◌, refl, [], ◌∷◌, ◌++◌, length, arith}
use ninep.Proto.Base.{Bytes, Error, ok, err}
use ninep.P9u.Stat.{Stat, StatInRange, encode_rstat, decode_rstat, encode_twstat, decode_twstat}
use ninep.P9u.Stat.RoundTrip.{decode_stat-encode_stat, decode_rstat_wrapped}

abbrev named : Bytes → Stat
named name = record {
  size = 0;
  type = 1;
  dev = 2;
  qid = record { type = 128; version = 3; path = 4 };
  mode = 420;
  atime = 5;
  mtime = 6;
  length = 7;
  name = name;
  uid = 8 ∷ [];
  gid = [];
  muid = [];
  extension = [];
  n_uid = 9;
  n_gid = 10;
  n_muid = 11;
}

named-InRange : (name : Bytes) → StatInRange (named name)
named-InRange name = record {
  type = omega arith;
  dev = omega arith;
  qid = record { type = omega arith; version = omega arith; path = omega arith };
  mode = omega arith;
  atime = omega arith;
  mtime = omega arith;
  length = omega arith;
  n_uid = omega arith;
  n_gid = omega arith;
  n_muid = omega arith;
}

abbrev short : Stat
short = named (97 ∷ 98 ∷ [])

decode_stat-encode_stat_example :
    let sent : Stat = record short { size = 64 } in
    ((bs : Bytes) × (encode_rstat (record { stat = short }) ≡ ok bs)
      × (decode_rstat (bs ++ (9 ∷ [])) ≡ ok (record { stat = sent }, 9 ∷ [])))
    × ((bs : Bytes) × (encode_twstat (record { fid = 1; stat = short }) ≡ ok bs)
        × (decode_twstat (bs ++ (9 ∷ [])) ≡ ok (record { fid = 1; stat = sent }, 9 ∷ [])))
decode_stat-encode_stat_example =
    decode_stat-encode_stat 1 short (9 ∷ []) (omega arith) (named-InRange (97 ∷ 98 ∷ []))
      (omega arith)

unfoldable zeros : ℕ → Bytes
zeros zero = []
zeros (suc n) = 0 ∷ zeros n

length-zeros : (n : ℕ) → length (zeros n) ≡ n
unfolding zeros
length-zeros zero = refl
length-zeros (suc n) = omega (arith, length-zeros n)

abbrev long : Stat
long = named (zeros 65472)

decode_rstat_wrapped_example :
    (bs : Bytes) × (e : Error) × (encode_rstat (record { stat = long }) ≡ ok bs)
    × (decode_rstat (bs ++ []) ≡ err e)
decode_rstat_wrapped_example =
    decode_rstat_wrapped long [] (omega (arith, length-zeros 65472))
      (omega (arith, length-zeros 65472))
