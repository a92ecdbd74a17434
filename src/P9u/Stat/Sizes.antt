-- ===== src/P9u/Stat/Sizes.antt =====
-- proto/p9u/messages.go: the bytes that the writers of a stat append, and their number.
use ninep.Prelude.{
  ℕ, [], ◌+◌, ◌≤◌, ◌≡◌, refl, ◌++◌, length, length-append, true, false, ltb, ◌%◌, ◌^◌, le→leb,
  arith,
}
use ninep.Proto.Base.{Bytes, Result, ok, ◌>>◌, done, check, max_string_len, string_too_long}
use ninep.Proto.Types.{Qid}
use ninep.Proto.Encode.{
  write_uint8, write_uint16, write_uint32, write_uint64, write_fid, write_bytes, write_string,
  write_qid,
}
use ninep.Proto.Laws.Bytes.{length-put_le}
use ninep.P9u.Stat.{Stat, stat_size, encoded_size, sized, encode_fields, encode_stat}

-- The writer does not fail, and appends `n` bytes.
pub record Writes (w : Result Bytes) (n : ℕ) : Type 0 where
  pub bytes : Bytes
  pub written : w ≡ ok bytes
  pub size : length bytes ≡ n

pub both : {v w : Result Bytes} {m n : ℕ} → Writes v m → Writes w n → Writes (v >> w) (m + n)
unfolding ◌>>◌
both a b = record {
  bytes = a.bytes ++ b.bytes;
  written = rw (a.written, b.written) refl;
  size = omega (arith, length-append a.bytes b.bytes, a.size, b.size);
}

pub resized : {w : Result Bytes} {m n : ℕ} → Writes w m → m ≡ n → Writes w n
resized a e = record { bytes = a.bytes; written = a.written; size = omega (arith, a.size) }

pub nothing : Writes done 0
unfolding done
nothing = record { bytes = _; written = refl; size = refl }

pub uint8 : (v : ℕ) → Writes (write_uint8 v) 1
unfolding write_uint8
uint8 v = record { bytes = _; written = refl; size = length-put_le 1 v }

pub uint16 : (v : ℕ) → Writes (write_uint16 v) 2
unfolding write_uint16
uint16 v = record { bytes = _; written = refl; size = length-put_le 2 v }

pub uint32 : (v : ℕ) → Writes (write_uint32 v) 4
unfolding write_uint32
uint32 v = record { bytes = _; written = refl; size = length-put_le 4 v }

pub uint64 : (v : ℕ) → Writes (write_uint64 v) 8
unfolding write_uint64
uint64 v = record { bytes = _; written = refl; size = length-put_le 8 v }

pub fid : (v : ℕ) → Writes (write_fid v) 4
unfolding write_fid
fid v = uint32 v

slice : (s : Bytes) → Writes (write_bytes s) (length s)
unfolding write_bytes
slice s = record { bytes = s; written = refl; size = refl }

passed : Writes (check true string_too_long) 0
unfolding check
passed = record { bytes = []; written = refl; size = refl }

pub string : (s : Bytes) → length s ≤ max_string_len → Writes (write_string s) (2 + length s)
unfolding write_string
string s h =
    rw (le→leb (length s) max_string_len h)
      (resized (both passed (both (uint16 (length s)) (slice s))) (omega arith))

pub qid : (q : Qid) → Writes (write_qid q) 13
unfolding write_qid
qid q = both (uint8 q.type) (both (uint32 q.version) (both (uint64 q.path) nothing))

-- The strings of a stat whose size is within a uint16 are short enough to be written.
pub fields : (s : Stat) (n : ℕ) → stat_size s ≡ n → n ≤ 65535 → Writes (encode_fields s) n
unfolding encode_fields
fields s n e h =
    resized
      (both (uint16 s.type) (
        both (uint32 s.dev) (
          both (qid s.qid) (
            both (uint32 s.mode) (
              both (uint32 s.atime) (
                both (uint32 s.mtime) (
                  both (uint64 s.length) (
                    both (string s.name (omega arith)) (
                      both (string s.uid (omega arith)) (
                        both (string s.gid (omega arith)) (
                          both (string s.muid (omega arith)) (
                            both (string s.extension (omega arith)) (
                              both (uint32 s.n_uid) (
                                both (uint32 s.n_gid) (both (uint32 s.n_muid) nothing)))))))))))))))
      (omega arith)

pub encoded_size_fits : (s : Stat) → stat_size s ≤ 65535 → encoded_size s ≡ ok (stat_size s)
unfolding encoded_size
encoded_size_fits s h =
    let low : stat_size s % 2 ^ 32 ≡ stat_size s = omega arith in
    let short : stat_size s % 2 ^ 16 ≡ stat_size s = omega arith in
    let fits : ltb 65535 (stat_size s) ≡ false = ground arith in rw (low, fits, short) refl

-- A stat within the limit is written, in two bytes more than its size.
pub stat : (s : Stat) → stat_size s ≤ 65535 → Writes (encode_stat s) (2 + stat_size s)
unfolding encode_stat sized
stat s h = rw (encoded_size_fits s h) (both (uint16 _) (fields s (stat_size s) refl h))
