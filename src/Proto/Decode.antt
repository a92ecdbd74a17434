-- ===== src/Proto/Decode.antt =====
-- proto/decode.go: the Read helpers over a *bytes.Reader, whose state is the bytes that are left.
-- A plain io.Reader gives the same values and the same two errors at the end of the input.
use ninep.Prelude.{ℕ, zero, suc, List, [], ◌∷◌, length, take, drop, leb, ltb, ◌==◌, if◌then◌else◌}
use ninep.Proto.Base.{Bytes, ok, err, Decoder, pure, ◌>>=◌, from_le, eof, unexpected_eof}
use ninep.Proto.Types.{Qid}

-- io.ReadFull into a slice of `n` bytes: nothing is read for `n` = 0; an empty input is `io.EOF`, and
-- one that ends inside the slice `io.ErrUnexpectedEOF`.
unfoldable pub read_full : ℕ → Decoder Bytes
read_full zero src = ok ([], src)
read_full (suc n) [] = err eof
read_full (suc n) (b ∷ bs) =
    if leb n (length bs) then ok (b ∷ take n bs, drop n bs) else err unexpected_eof

unfoldable pub read_uint8 : Decoder ℕ
read_uint8 = do buf ← read_full 1; pure (from_le buf)

unfoldable pub read_uint16 : Decoder ℕ
read_uint16 = do buf ← read_full 2; pure (from_le buf)

unfoldable pub read_uint32 : Decoder ℕ
read_uint32 = do buf ← read_full 4; pure (from_le buf)

unfoldable pub read_uint64 : Decoder ℕ
read_uint64 = do buf ← read_full 8; pure (from_le buf)

unfoldable pub read_fid : Decoder ℕ
read_fid = read_uint32

unfoldable pub read_string : Decoder Bytes
read_string = do length ← read_uint16; if length == 0 then pure [] else read_full length

-- The count is tested against what is left before anything is allocated.
unfoldable pub read_data : ℕ → Decoder Bytes
read_data count src =
    if count == 0
    then ok ([], src)
    else if ltb (length src) count
    then err unexpected_eof
    else read_full count src

unfoldable pub read_qid : Decoder Qid
read_qid = do
  t ← read_uint8
  version ← read_uint32
  path ← read_uint64
  pure (record { type = t; version = version; path = path })

-- `make([]T, n)`, and a loop that reads each element.
unfoldable pub read_many : {A : Type 0} → ℕ → Decoder A → Decoder (List A)
read_many zero read = pure []
read_many (suc n) read = do x ← read; xs ← read_many n read; pure (x ∷ xs)
