-- ===== src/Proto/Laws/Recodes.antt =====
-- `Recodes d k w P`: whatever `d` reads and accepts satisfies `P`, and the writer `w` of the value
-- gives the very bytes that `d` took, behind what `k` stands for: the fields written before.
use ninep.Prelude.{
  ℕ, zero, suc, ◌^◌, ◌≤◌, ◌<◌, ◌≡◌, refl, ap, sym, ◌∙◌, Bool, true, false, [], ◌∷◌, ◌++◌,
  append_assoc, length, take-append-drop, length-take, All, le→leb, ◌==◌, if◌then◌else◌, arith,
}
use mathlib.Core.Path.{subst, subst₂, ap₂}
use ninep.Proto.Base.{
  Bytes, Error, Result, ok, err, Decoder, ◌>>◌, done, pure, guard, ◌>>=◌, put_le, from_le, IsU8,
  IsU16, IsU32, IsU64, max_string_len, after,
}
use ninep.Proto.Types.{QidInRange}
use ninep.Proto.Encode.{
  write_uint8, write_uint16, write_uint32, write_uint64, write_fid, write_bytes, write_string,
  write_qid, write_all,
}
use ninep.Proto.Decode.{
  read_full, read_uint8, read_uint16, read_uint32, read_uint64, read_fid, read_string, read_data,
  read_qid, read_many,
}
use ninep.Proto.Laws.Writer.{check_passes, >>-done}
use ninep.Proto.Laws.Bytes.{put_le-from_le, from_le-lt}

pub record Took {A : Type 0} (k : Result Bytes → Result Bytes) (w : A → Result Bytes)
    (P : A → Type 0) (src : Bytes) (a : A) (rest : Bytes) : Type 0 where
  pub taken : Bytes
  pub split : src ≡ taken ++ rest
  pub same : w a ≡ k (ok taken)
  pub valid : P a
  pub bytes : All IsU8 rest

pub record Recodes {A : Type 0} (d : Decoder A) (k : Result Bytes → Result Bytes)
    (w : A → Result Bytes) (P : A → Type 0) : Type 0 where
  pub at :
      (src : Bytes) (a : A) (rest : Bytes)
      → All IsU8 src
      → d src ≡ ok (a, rest)
      → Took k w P src a rest

-- A whole reader: nothing is written before it.
abbrev pub Whole : {A : Type 0} → Decoder A → (A → Result Bytes) → (A → Type 0) → Type 0
Whole d w P = Recodes d (λ x. x) w P

ok_inj :
    {A : Type 0} {a b : A} {x y : Bytes}
    → ◌≡◌ {A = Result (A × Bytes)} (ok (a, x)) (ok (b, y))
    → (a ≡ b) × (x ≡ y)
ok_inj h = (cc, cc)

after-eq-ok :
    {A B : Type 0} (r : Result (B × Bytes)) (f : B → Decoder A) {z : A × Bytes}
    → after r f ≡ ok z
    → (b : B) × (mid : Bytes) × (r ≡ ok (b, mid)) × (f b mid ≡ ok z)
after-eq-ok (ok (b, mid)) f q = (b, mid, refl, q)
after-eq-ok (err e) f q = cc

module _ {A : Type 0} (k : Result Bytes → Result Bytes) (w : A → Result Bytes)
    (P : A → Type 0) where
  pub end : (a : A) → w a ≡ k done → P a → Recodes (pure a) k w P
  unfolding pure done
  end a e p = record {
    at = λ src b rest h q.
        let (i, j) = ok_inj q in
        record { taken = []; split = j; same = rw (← i) e; valid = rw (← i) p; bytes = rw (← j) h };
  }

  pub guarded :
      (b : Bool) (e : Error) (f : Unit {0} → Decoder A)
      → (b ≡ true → Recodes (f tt) k w P)
      → Recodes (guard b e >>= f) k w P
  unfolding guard ◌>>=◌
  guarded true e f r = record { at = (r refl).at }
  guarded false e f r = record { at = λ src a rest h q. cc }

  pub field :
      {B : Type 0} {c : Decoder B} {v : B → Result Bytes} {Q : B → Type 0} (f : B → Decoder A)
      → Whole c v Q
      → ((b : B) → Q b → Recodes (f b) (λ x. k (v b >> x)) w P)
      → Recodes (c >>= f) k w P
  unfolding ◌>>=◌ ◌>>◌
  field {c = c} {v = v} f r s = record {
    at = λ src a rest h q.
        let (b, mid, first, then_f) = after-eq-ok (c src) f q in
        let t = r.at src b mid h first in
        let u = (s b t.valid).at mid a rest t.bytes then_f in
        record {
          taken = t.taken ++ u.taken;
          split =
              t.split ∙ ap (λ l. t.taken ++ l) u.split ∙ sym (append_assoc t.taken u.taken rest);
          same = u.same ∙ ap (λ x. k (x >> ok u.taken)) t.same;
          valid = u.valid;
          bytes = u.bytes;
        };
  }

read_full_took :
    (n : ℕ) (src bs rest : Bytes)
    → read_full n src ≡ ok (bs, rest)
    → (src ≡ bs ++ rest) × (length bs ≡ n)
unfolding read_full
read_full_took zero src bs rest q = let (i, j) = ok_inj q in (rw (← i) j, ap length (sym i))
read_full_took (suc n) [] bs rest q = cc
read_full_took (suc n) (b ∷ src) bs rest q =
    ground (arith, take-append-drop n src, length-take n src)

All-front : (bs rest : Bytes) → All IsU8 (bs ++ rest) → All IsU8 bs × All IsU8 rest
All-front [] rest h = (tt, h)
All-front (b ∷ bs) rest (hb, h) = let (x, y) = All-front bs rest h in ((hb, x), y)

pub slice : (n : ℕ) → Whole (read_full n) write_bytes (λ s. All IsU8 s × (length s ≡ n))
unfolding write_bytes
slice n = record {
  at = λ src bs rest h q.
      let (s, l) = read_full_took n src bs rest q in
      let (x, y) = All-front bs rest (subst (All IsU8) s h) in
      record { taken = bs; split = s; same = refl; valid = (x, l); bytes = y };
}

-- An integer of `k` bytes.
integer :
    (k : ℕ)
    → Whole (do buf ← read_full k; pure (from_le buf)) (λ v. ok (put_le k v)) (λ v. v < 256 ^ k)
unfolding pure write_bytes ◌>>=◌
integer k = record {
  at = λ src v rest h q.
      let (bs, mid, first, e) = after-eq-ok (read_full k src) (λ buf. pure (from_le buf)) q in
      let t = (slice k).at src bs mid h first in
      let (i, j) = ok_inj e in
      let (b, l) = t.valid in
      record {
        taken = bs;
        split = (read_full_took k src bs mid first).0 ∙ ap (λ l. bs ++ l) j;
        same = ap₂ (λ m u. ok (put_le m u)) (sym l) (sym i) ∙ ap ok (put_le-from_le bs b);
        valid = subst₂ (λ m u. u < 256 ^ m) l i (from_le-lt bs b);
        bytes = subst (All IsU8) j t.bytes;
      };
}

pub uint8 : Whole read_uint8 write_uint8 IsU8
unfolding read_uint8 write_uint8
uint8 = integer 1

pub uint16 : Whole read_uint16 write_uint16 IsU16
unfolding read_uint16 write_uint16
uint16 = integer 2

pub uint32 : Whole read_uint32 write_uint32 IsU32
unfolding read_uint32 write_uint32
uint32 = integer 4

pub uint64 : Whole read_uint64 write_uint64 IsU64
unfolding read_uint64 write_uint64
uint64 = integer 8

pub fid : Whole read_fid write_fid IsU32
unfolding read_fid write_fid
fid = uint32

pub qid : Whole read_qid write_qid QidInRange
unfolding read_qid write_qid
qid = field _ _ _ _ uint8 λ t ht. field _ _ _ _ uint32 λ v hv.
    field _ _ _ _ uint64 λ p hp. end _ _ _ _ refl (record { type = ht; version = hv; path = hp })

-- A reader that ends in another reader.
finally :
    {A : Type 0} (k : Result Bytes → Result Bytes) (w : A → Result Bytes) (P : A → Type 0)
    {v : A → Result Bytes} {Q : A → Type 0} {c : Decoder A}
    → Whole c v Q
    → ((a : A) → Q a → (w a ≡ k (v a)) × P a)
    → Recodes c k w P
finally k w P r f = record {
  at = λ src a rest h q.
      let t = r.at src a rest h q in
      let (same, valid) = f a t.valid in
      record {
        taken = t.taken;
        split = t.split;
        same = same ∙ ap k t.same;
        valid = valid;
        bytes = t.bytes;
      };
}

text-eq : (n : ℕ) → ◌≡◌ {A = Decoder Bytes} (if n == 0 then pure [] else read_full n) (read_full n)
unfolding pure read_full
text-eq zero = refl
text-eq (suc n) = let e : (suc n == 0) ≡ false = ground arith in rw e

pub string : Whole read_string write_string (λ s. length s ≤ max_string_len)
unfolding read_string write_string
string = field _ _ _ _ uint16 λ n hn. rw (text-eq n) (
    finally _ _ _ (slice n) λ s hs.
      let short : length s ≤ max_string_len = omega (arith, hs.1) in
      (
        check_passes _ _ _ (le→leb _ _ short) ∙ ap (λ m. write_uint16 m >> write_bytes s) hs.1,
        short,
      ))

read_data→read_full :
    (n : ℕ) (src s rest : Bytes) → read_data n src ≡ ok (s, rest) → read_full n src ≡ ok (s, rest)
unfolding read_data read_full
read_data→read_full zero src s rest q = q
read_data→read_full (suc n) src s rest q = ground arith

pub payload : (n : ℕ) → Whole (read_data n) write_bytes (λ s. All IsU8 s × (length s ≡ n))
payload n = record {
  at = λ src s rest h q. (slice n).at src s rest h (read_data→read_full n src s rest q);
}

pub repeated :
    {A : Type 0} (n : ℕ) (c : Decoder A) (w : A → Result Bytes) (P : A → Type 0)
    → Whole c w P
    → Whole (read_many n c) (write_all w) (λ xs. All P xs × (length xs ≡ n))
unfolding read_many write_all
repeated zero c w P r = end _ _ _ [] refl (tt, refl)
repeated (suc n) c w P r = field _ _ _ _ r λ x hx. field _ _ _ _ (repeated n c w P r) λ xs hxs.
    end _ _ _ _ (ap (λ t. w x >> t) (sym (>>-done (write_all w xs)))) ((hx, hxs.0), ap suc hxs.1)

-- A value that is made from the one read last.
pub mapped :
    {A B : Type 0} {d : Decoder A} {w : A → Result Bytes} {P : A → Type 0} (g : A → B)
    (v : B → Result Bytes) (Q : B → Type 0)
    → Whole d w P
    → ((a : A) → P a → (v (g a) ≡ w a) × Q (g a))
    → Whole (d >>= λ a. pure (g a)) v Q
mapped g v Q r f = field _ _ _ _ r λ a h. let (e, q) = f a h in end _ _ _ _ (e ∙ sym (>>-done _)) q
