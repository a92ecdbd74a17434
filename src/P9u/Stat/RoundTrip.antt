-- ===== src/P9u/Stat/RoundTrip.antt =====
-- proto/p9u/messages.go: what the readers make of the bytes that the writers of a stat append.
use ninep.Prelude.{
  ℕ, zero, suc, append_assoc, ◌+◌, ◌-◌, ◌%◌, ◌^◌, ◌≤◌, ◌≡◌, refl, ap, sym, [], ◌∷◌, ◌++◌,
  append-nil, take-append, drop-append, length, arith,
}
use ninep.Proto.Base.{
  Bytes, IsU32, Result, ok, err, Error, Decoder, ◌>>◌, ◌>>=◌, pure, guard, put_le,
}
use ninep.Proto.Encode.{write_uint16}
use ninep.Proto.Decode.{read_uint16, read_full}
use ninep.Proto.Laws.Reads.{Reads, end, field, mapped, fid, uint16, uint32, uint64, string, qid}
use ninep.P9u.Stat.{
  Stat, StatInRange, stat_size, sized, encode_fields, decode_fields, encode_stat, decode_stat,
  within, limited, filled, encode_rstat, decode_rstat, encode_twstat, decode_twstat,
}
use ninep.P9u.Stat.Sizes.{Writes, both, fields, encoded_size_fits, stat}
use ninep.P9u.Stat.Sizes as Sizes

-- A writer and the bytes it appends, whatever the number.
fields_reads :
    (s : Stat) (size : ℕ)
    → StatInRange s
    → (k : ℕ) × Reads (encode_fields s) k (decode_fields size) (record s { size = size })
unfolding encode_fields decode_fields
fields_reads s size h = (
  _,
  field _ (uint16 h.type) (
      field _ (uint32 h.dev) (
        field _ (qid h.qid) (
          field _ (uint32 h.mode) (
            field _ (uint32 h.atime) (
              field _ (uint32 h.mtime) (
                field _ (uint64 h.length) (
                  field _ (string s.name) (
                    field _ (string s.uid) (
                      field _ (string s.gid) (
                        field _ (string s.muid) (
                          field _ (string s.extension) (
                            field _ (uint32 h.n_uid) (
                              field _ (uint32 h.n_gid)
                                (field _ (uint32 h.n_muid) (end _))))))))))))))),
)

within_all :
    {A : Type 0} (a : A) (bs rest : Bytes)
    → within (length bs) (bs ++ rest) (ok (a, [])) ≡ ok ((a, 0), rest)
unfolding within
within_all a bs rest =
    let all : length bs - 0 ≡ length bs = omega arith in
    let none_left : length bs - length bs ≡ 0 = omega arith in
    rw (take-append bs rest, all, none_left, drop-append bs rest) refl

limited-back :
    {A : Type 0} (d : Decoder A) (a : A) (bs rest : Bytes)
    → d bs ≡ ok (a, [])
    → limited (length bs) d (bs ++ rest) ≡ ok ((a, 0), rest)
unfolding limited
limited-back d a bs rest e = rw (take-append bs rest, e) (within_all a bs rest)

-- A reader that takes the whole of `bs` fills a limit of as many bytes.
filled-back :
    {A : Type 0} (d : Decoder A) (a : A) (bs rest : Bytes)
    → d bs ≡ ok (a, [])
    → filled (length bs) d (bs ++ rest) ≡ ok (a, rest)
unfolding filled ◌>>=◌ guard pure
filled-back d a bs rest e = rw (limited-back d a bs rest e) refl

filled_reads :
    {A : Type 0} {w : Result Bytes} {k n : ℕ} {d : Decoder A} {a : A}
    → Writes w n
    → Reads w k d a
    → Reads w n (filled n d) a
filled_reads {n = n} {d = d} {a = a} v r = record {
  back = λ bs rest h.
      let same : v.bytes ≡ bs = (let e = v.written in cc) in
      let len : length bs ≡ n = (let e = v.size in rw (sym same) e) in
      rw (sym len) (filled-back d a bs rest (rw append-nil at (r.back bs [] h)));
  size = λ bs h.
      let same : v.bytes ≡ bs = (let e = v.written in cc) in omega (arith, v.size, ap length same);
}

stat_reads :
    (s : Stat)
    → StatInRange s
    → stat_size s ≤ 65535
    → Reads (encode_stat s) (2 + stat_size s) decode_stat (record s { size = stat_size s })
unfolding encode_stat decode_stat sized
stat_reads s h fits = rw (encoded_size_fits s fits) (
    field _ (uint16 (omega arith))
      (filled_reads (fields s _ refl fits) (fields_reads s (stat_size s) h).1))

-- The size field, and then a stat that fills the number of bytes that it gives.
nstat_reads :
    {B : Type 0} (g : Stat → B) (s : Stat)
    → StatInRange s
    → stat_size s ≤ 65533
    → Reads
        (write_uint16 ((2 + stat_size s) % 2 ^ 16) >> encode_stat s)
        (2 + (2 + stat_size s))
        (do nstat ← read_uint16; t ← filled nstat decode_stat; pure (g t))
        (g (record s { size = stat_size s }))
nstat_reads g s h fits =
    let low : (2 + stat_size s) % 2 ^ 16 ≡ 2 + stat_size s = omega arith in
    rw low (
      field _ (uint16 (omega arith))
        (mapped g (filled_reads (stat s (omega arith)) (stat_reads s h (omega arith)))))

rstat_reads :
    (s : Stat)
    → StatInRange s
    → stat_size s ≤ 65533
    → Reads
        (encode_rstat (record { stat = s }))
        (2 + (2 + stat_size s))
        decode_rstat
        (record { stat = record s { size = stat_size s } })
unfolding encode_rstat decode_rstat sized
rstat_reads s h fits =
    rw (encoded_size_fits s (omega arith)) (nstat_reads (λ t. record { stat = t }) s h fits)

twstat_reads :
    (f : ℕ) (s : Stat)
    → IsU32 f
    → StatInRange s
    → stat_size s ≤ 65533
    → Reads
        (encode_twstat (record { fid = f; stat = s }))
        (4 + (2 + (2 + stat_size s)))
        decode_twstat
        (record { fid = f; stat = record s { size = stat_size s } })
unfolding encode_twstat decode_twstat sized
twstat_reads f s small h fits =
    rw (encoded_size_fits s (omega arith))
      (field _ (fid small) (nstat_reads (λ t. record { fid = f; stat = t }) s h fits))

-- A writer of a size field for the sum 2 + n, and then the stat.
nstat-Writes :
    (s : Stat)
    → stat_size s ≤ 65535
    → Writes (write_uint16 ((2 + stat_size s) % 2 ^ 16) >> encode_stat s) (2 + (2 + stat_size s))
nstat-Writes s fits = both (Sizes.uint16 _) (stat s fits)

-- A stat of at most 65533 bytes whose fields are in the range of their Go types: Rstat and Twstat
-- write it without error, and read it back, whatever follows, with its field Size set to its size.
pub decode_stat-encode_stat :
    (f : ℕ) (s : Stat) (rest : Bytes)
    → IsU32 f
    → StatInRange s
    → stat_size s ≤ 65533
    → let sent : Stat = record s { size = stat_size s } in
      ((bs : Bytes) × (encode_rstat (record { stat = s }) ≡ ok bs)
        × (decode_rstat (bs ++ rest) ≡ ok (record { stat = sent }, rest)))
      × ((bs : Bytes) × (encode_twstat (record { fid = f; stat = s }) ≡ ok bs)
          × (decode_twstat (bs ++ rest) ≡ ok (record { fid = f; stat = sent }, rest)))
unfolding encode_rstat encode_twstat sized
decode_stat-encode_stat f s rest small h fits =
    let size = encoded_size_fits s (omega arith) in
    let v = nstat-Writes s (omega arith) in
    let w = both (Sizes.fid f) v in
    let e : encode_rstat (record { stat = s }) ≡ ok v.bytes = rw size v.written in
    let g : encode_twstat (record { fid = f; stat = s }) ≡ ok w.bytes = rw size w.written in
    (
      (v.bytes, e, (rstat_reads s h fits).back v.bytes rest e),
      (w.bytes, g, (twstat_reads f s small h fits).back w.bytes rest g),
    )

-- Under a limit of no byte or one, there is no size to read.
small_limit : (n : ℕ) (src : Bytes) → n ≤ 1 → (e : Error) × (filled n decode_stat src ≡ err e)
unfolding filled limited within decode_stat ◌>>=◌ read_uint16 read_full
small_limit zero src h = (_, refl)
small_limit (suc zero) [] h = (_, refl)
small_limit (suc zero) (b ∷ src) h = (_, refl)
small_limit (suc (suc n)) src h = absurd (omega arith)

nstat_fails :
    (n : ℕ) (src : Bytes) → n ≤ 1 → (e : Error) × (decode_rstat (put_le 2 n ++ src) ≡ err e)
unfolding decode_rstat ◌>>=◌ write_uint16
nstat_fails n src h =
    let (e, fails) = small_limit n src h in
    (e, rw ((uint16 {v = n} (omega arith)).back (put_le 2 n) src refl, fails) refl)

-- A stat of 65534 or 65535 bytes, which EncodedSize allows: the sum in Rstat and Twstat wraps to 0 or
-- 1. Rstat writes such a stat without error, and its own reader refuses what it wrote.
pub decode_rstat_wrapped :
    (s : Stat) (rest : Bytes)
    → 65534 ≤ stat_size s
    → stat_size s ≤ 65535
    → (bs : Bytes) × (e : Error) × (encode_rstat (record { stat = s }) ≡ ok bs)
      × (decode_rstat (bs ++ rest) ≡ err e)
unfolding encode_rstat sized write_uint16 ◌>>◌
decode_rstat_wrapped s rest low high =
    let size = encoded_size_fits s (omega arith) in
    let v = stat s high in
    let (e, fails) = nstat_fails ((2 + stat_size s) % 2 ^ 16) (v.bytes ++ rest) (omega arith) in
    (
      put_le 2 ((2 + stat_size s) % 2 ^ 16) ++ v.bytes,
      e,
      rw (size, v.written) refl,
      rw append_assoc fails,
    )
