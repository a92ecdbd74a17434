-- ===== src/Proto/Base.antt =====
-- What every part of the codec uses: bytes, errors, and the constants of proto/constants.go and
-- proto/types.go. A uint8, uint16, uint32 or uint64 is a native number with its range as a predicate.
use ninep.Prelude.{
  ℕ, zero, suc, ◌+◌, ◌-◌, ◌*◌, ◌/◌, ◌%◌, ◌^◌, ◌<◌, Bool, true, false, List, [], ◌∷◌, ◌++◌,
}

abbrev pub Bytes : Type 0
Bytes = List ℕ

abbrev pub IsU8 : ℕ → Type 0
IsU8 v = v < 256

abbrev pub IsU16 : ℕ → Type 0
IsU16 v = v < 2 ^ 16

abbrev pub IsU32 : ℕ → Type 0
IsU32 v = v < 2 ^ 32

abbrev pub IsU64 : ℕ → Type 0
IsU64 v = v < 2 ^ 64

abbrev pub header_size : ℕ
header_size = 7

abbrev pub max_walk_elements : ℕ
max_walk_elements = 16

abbrev pub max_string_len : ℕ
max_string_len = 65535

abbrev pub qid_size : ℕ
qid_size = 13

abbrev pub no_fid : ℕ
no_fid = 2 ^ 32 - 1

abbrev pub no_tag : ℕ
no_tag = 65535

abbrev pub max_data_size : ℕ
max_data_size = 2 ^ 24

-- The errors that the codec tells apart. Go's errors also carry text, which is left out.
pub data Error : Type 0 where
  eof unexpected_eof : Error
  string_too_long too_many_elements data_too_large : Error
  invalid_lock_type invalid_lock_flags invalid_lock_status : Error
  body_too_short data_short : Error
  stat_too_large size_overstated : Error
  frame_too_small frame_too_large unknown_type trailing_bytes : Error

pub data Result {ℓ} (A : Type ℓ) : Type ℓ where
  ok : A → Result A
  err : Error → Result A

-- A writer is the bytes that it appends, or its error; after an error nothing more is written.
infixl 5 ◌>>◌
unfoldable pub ◌>>◌ : Result Bytes → Result Bytes → Result Bytes
ok a >> ok b = ok (a ++ b)
ok a >> err e = err e
err e >> w = err e

-- `return nil`
unfoldable pub done : Result Bytes
done = ok []

-- `if !holds { return e }`, in an encoder
unfoldable pub check : Bool → Error → Result Bytes
check true e = ok []
check false e = err e

-- A reader takes the bytes that are left, and returns its value with what it has not read.
abbrev pub Decoder {ℓ} : Type ℓ → Type ℓ
Decoder A = Bytes → Result (A × Bytes)

module _ {ℓ} {A : Type ℓ} where
  unfoldable pub pure : A → Decoder A
  pure a src = ok (a, src)

  unfoldable pub fail : Error → Decoder A
  fail e src = err e

  abbrev pub after {κ} : {B : Type κ} → Result (A × Bytes) → (A → Decoder B) → Result (B × Bytes)
  after (ok (a, rest)) f = f a rest
  after (err e) f = err e

infixl 5 ◌>>=◌
unfoldable pub ◌>>=◌ {ℓ κ} : {A : Type ℓ} {B : Type κ} → Decoder A → (A → Decoder B) → Decoder B
◌>>=◌ d f src = after (d src) f

-- `if !holds { return e }`, in a decoder
unfoldable pub guard : Bool → Error → Decoder (Unit {0})
guard true e src = ok (tt, src)
guard false e src = err e

-- Little-endian integers of `k` bytes: encoding/binary's LittleEndian.
unfoldable pub put_le : ℕ → ℕ → Bytes
put_le zero v = []
put_le (suc k) v = (v % 256) ∷ put_le k (v / 256)

unfoldable pub from_le : Bytes → ℕ
from_le [] = 0
from_le (b ∷ bs) = b + 256 * from_le bs
