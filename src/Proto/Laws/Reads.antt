-- ===== src/Proto/Laws/Reads.antt =====
-- `Reads w n d a`: whatever the writer `w` appends is at most `n` bytes, and the reader `d` takes
-- exactly these bytes, whatever follows, and returns `a`. One rule for each way to build a codec.
use ninep.Prelude.{
  ℕ, ◌+◌, ◌*◌, ◌^◌, ◌≤◌, ◌<◌, ◌≡◌, refl, ap, Bool, true, false, [], ◌∷◌, ◌++◌, append_assoc, length,
  length-append, All, List, take-append, drop-append, le→leb, leb→le, false, ◌==◌, if◌then◌else◌,
  arith,
}
use ninep.Proto.Base.{
  Bytes, Error, Result, ok, err, Decoder, ◌>>◌, done, check, pure, guard, ◌>>=◌, put_le, from_le,
  IsU8, IsU16, IsU32, IsU64, max_string_len, max_data_size,
}
use ninep.Proto.Types.{Qid, QidInRange}
use ninep.Proto.Encode.{
  write_all, write_uint8, write_uint16, write_uint32, write_uint64, write_fid, write_bytes,
  write_string, write_qid,
}
use ninep.Proto.Decode.{
  read_data, read_many, read_full, read_uint8, read_uint16, read_uint32, read_uint64, read_fid,
  read_string, read_qid,
}
use ninep.Proto.Laws.Bytes.{length-put_le, from_le-put_le}

pub record Reads {ℓ} {A : Type ℓ} (w : Result Bytes) (n : ℕ) (d : Decoder A) (a : A) : Type ℓ where
  pub back : (bs rest : Bytes) → w ≡ ok bs → d (bs ++ rest) ≡ ok (a, rest)
  pub size : (bs : Bytes) → w ≡ ok bs → length bs ≤ n

>>-eq-ok :
    (v w : Result Bytes) (bs : Bytes)
    → (v >> w) ≡ ok bs
    → (x : Bytes) × (y : Bytes) × (v ≡ ok x) × (w ≡ ok y) × (bs ≡ x ++ y)
unfolding ◌>>◌
>>-eq-ok (ok x) (ok y) bs h = (x, y, refl, refl, cc)
>>-eq-ok (ok x) (err e) bs h = cc
>>-eq-ok (err e) w bs h = cc

ok_inj : {x y : Bytes} → ◌≡◌ {A = Result Bytes} (ok x) (ok y) → x ≡ y
ok_inj h = cc

abbrev pub body_limit : ℕ
body_limit = max_data_size + 4096

module _ {ℓ} {A : Type ℓ} where
  -- An empty body, or the end of one.
  pub end : (a : A) → Reads done 0 (pure a) a
  unfolding done pure
  end a = record { back = λ bs rest h. ground arith; size = λ bs h. ground arith }

  -- A test that only the writer makes: where it fails nothing is written.
  pub checked :
      (b : Bool) (e : Error) {w : Result Bytes} {n : ℕ} {d : Decoder A} {a : A}
      → (b ≡ true → Reads w n d a)
      → Reads (check b e >> w) n d a
  unfolding check ◌>>◌
  checked true e {w = ok x} r = r refl
  checked true e {w = err _} r = r refl
  checked false e r = record { back = λ bs rest h. cc; size = λ bs h. cc }

  -- A test that only the reader makes.
  pub guarded :
      {b : Bool} (e : Error) {w : Result Bytes} {n : ℕ} (f : Unit {0} → Decoder A) {a : A}
      → b ≡ true
      → Reads w n (f tt) a
      → Reads w n (guard b e >>= f) a
  unfolding guard ◌>>=◌
  guarded e f h r = record { back = λ bs rest p. rw h (r.back bs rest p); size = r.size }

  -- One field, and then the others.
  pub field {κ} :
      {B : Type κ} {v w : Result Bytes} {m n : ℕ} {c : Decoder B} (f : B → Decoder A) {b : B}
      {a : A}
      → Reads v m c b
      → Reads w n (f b) a
      → Reads (v >> w) (m + n) (c >>= f) a
  unfolding ◌>>=◌
  field {v = v} {w = w} f {b = b} r s = record {
    back = λ bs rest h.
        let (x, y, p, q, e) = >>-eq-ok v w bs h in
        rw (e, append_assoc, r.back x (y ++ rest) p) (s.back y rest q);
    size = λ bs h.
        let (x, y, p, q, e) = >>-eq-ok v w bs h in
        rw (e, length-append) (omega (arith, r.size x p, s.size y q));
  }

  -- A value that is made from the one read last.
  pub mapped :
      {B : Type ℓ} {w : Result Bytes} {n : ℕ} {d : Decoder A} (g : A → B) {a : A}
      → Reads w n d a
      → Reads w n (d >>= λ x. pure (g x)) (g a)
  unfolding ◌>>=◌ pure
  mapped g r = record { back = λ bs rest h. rw (r.back bs rest h); size = r.size }

  pub upto :
      {w : Result Bytes} {m : ℕ} {d : Decoder A} {a : A} (n : ℕ)
      → Reads w m d a
      → m ≤ n
      → Reads w n d a
  upto n r h = record { back = r.back; size = λ bs e. omega (arith, r.size bs e) }

-- `read_full` takes the front part whole.
pub read_full-append : (bs rest : Bytes) → read_full (length bs) (bs ++ rest) ≡ ok (bs, rest)
unfolding read_full
read_full-append [] rest = refl
read_full-append (b ∷ bs) rest = rw (
  le→leb (length bs) (length (bs ++ rest)) (omega (arith, length-append bs rest)),
  take-append,
  drop-append,
)

-- An integer of `k` bytes.
integer :
    (k v : ℕ) → v < 256 ^ k → Reads (ok (put_le k v)) k (do buf ← read_full k; pure (from_le buf)) v
unfolding ◌>>=◌ pure
integer k v h = record {
  back = λ bs rest e. rw (← ok_inj e) (
      let cut : read_full k (put_le k v ++ rest) ≡ ok (put_le k v, rest) =
        rw length-put_le at (read_full-append (put_le k v) rest) in
      rw cut (ap (λ t. ok (t, rest)) (from_le-put_le k v h)));
  size = λ bs e. rw (← ok_inj e) (omega (arith, length-put_le k v));
}

pub uint8 : {v : ℕ} → IsU8 v → Reads (write_uint8 v) 1 read_uint8 v
unfolding write_uint8 read_uint8
uint8 {v} h = integer 1 v h

pub uint16 : {v : ℕ} → IsU16 v → Reads (write_uint16 v) 2 read_uint16 v
unfolding write_uint16 read_uint16
uint16 {v} h = integer 2 v h

pub uint32 : {v : ℕ} → IsU32 v → Reads (write_uint32 v) 4 read_uint32 v
unfolding write_uint32 read_uint32
uint32 {v} h = integer 4 v h

pub uint64 : {v : ℕ} → IsU64 v → Reads (write_uint64 v) 8 read_uint64 v
unfolding write_uint64 read_uint64
uint64 {v} h = integer 8 v h

pub fid : {v : ℕ} → IsU32 v → Reads (write_fid v) 4 read_fid v
unfolding write_fid read_fid
fid h = uint32 h

-- The bytes of a slice whose length the reader knows.
pub slice : (s : Bytes) (n : ℕ) → length s ≤ n → Reads (write_bytes s) n (read_full (length s)) s
unfolding write_bytes
slice s n h = record {
  back = λ bs rest e. rw (← ok_inj e) (read_full-append s rest);
  size = λ bs e. rw (← ok_inj e) h;
}

string_data :
    (s : Bytes) (n : ℕ)
    → length s ≤ n
    → Reads (write_bytes s) n (if length s == 0 then pure [] else read_full (length s)) s
unfolding write_bytes pure read_full
string_data [] n h = slice [] n h
string_data (b ∷ s) n h =
    let e : (length (b ∷ s) == 0) ≡ false = ground arith in rw e (slice (b ∷ s) n h)

-- A string that is too long is not written at all; any other is read back.
pub string : (s : Bytes) → Reads (write_string s) (2 + max_string_len) read_string s
unfolding write_string read_string
string s = checked _ _ (λ short.
    let h : length s ≤ max_string_len = leb→le _ _ short in
    field _ (uint16 (omega arith)) (string_data s max_string_len h))

read_data-append : (s rest : Bytes) → read_data (length s) (s ++ rest) ≡ ok (s, rest)
unfolding read_data
read_data-append [] rest = refl
read_data-append (b ∷ s) rest = ground (arith, read_full-append (b ∷ s) rest, length-append s rest)

-- The payload of Rread, Twrite and Rreaddir, read by its count.
pub payload : (s : Bytes) (n : ℕ) → length s ≤ n → Reads (write_bytes s) n (read_data (length s)) s
unfolding write_bytes read_data read_full
payload s n h = record {
  back = λ bs rest e. rw (← ok_inj e) (read_data-append s rest);
  size = (slice s n h).size;
}

pub qid : {q : Qid} → QidInRange q → Reads (write_qid q) 13 read_qid q
unfolding write_qid read_qid
qid h = field _ (uint8 h.type) (field _ (uint32 h.version) (field _ (uint64 h.path) (end _)))

-- A slice of elements that are read back one by one.
pub repeated :
    {A : Type 0} (w : A → Result Bytes) (n : ℕ) (c : Decoder A) (xs : List A)
    → All (λ x. Reads (w x) n c x) xs
    → Reads (write_all w xs) (length xs * n) (read_many (length xs) c) xs
unfolding write_all read_many
repeated w n c [] h = upto _ (end []) (omega arith)
repeated w n c (x ∷ xs) (hx, hxs) =
    upto _ (field _ hx (mapped (λ ys. x ∷ ys) (repeated w n c xs hxs))) (omega arith)
