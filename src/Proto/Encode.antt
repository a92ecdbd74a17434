-- ===== src/Proto/Encode.antt =====
-- proto/encode.go: the Write helpers. The *bytes.Buffer path, the *ByteCounter path and the plain
-- io.Writer path append the same bytes; the model keeps the bytes.
use ninep.Prelude.{ℕ, List, [], ◌∷◌, length, leb}
use ninep.Proto.Types.{Qid}
use ninep.Proto.Base.{Bytes, Result, ok, ◌>>◌, done, check, put_le, max_string_len, string_too_long}

unfoldable pub write_uint8 : ℕ → Result Bytes
write_uint8 v = ok (put_le 1 v)

unfoldable pub write_uint16 : ℕ → Result Bytes
write_uint16 v = ok (put_le 2 v)

unfoldable pub write_uint32 : ℕ → Result Bytes
write_uint32 v = ok (put_le 4 v)

unfoldable pub write_fid : ℕ → Result Bytes
write_fid f = write_uint32 f

unfoldable pub write_uint64 : ℕ → Result Bytes
write_uint64 v = ok (put_le 8 v)

-- io.WriteString and w.Write of a whole slice
unfoldable pub write_bytes : Bytes → Result Bytes
write_bytes s = ok s

unfoldable pub write_string : Bytes → Result Bytes
write_string s = do
  check (leb (length s) max_string_len) string_too_long
  write_uint16 (length s)
  write_bytes s

unfoldable pub write_qid : Qid → Result Bytes
write_qid q = do write_uint8 q.type; write_uint32 q.version; write_uint64 q.path; done

-- A loop that writes the elements of a slice one after the other.
unfoldable pub write_all : {A : Type 0} → (A → Result Bytes) → List A → Result Bytes
write_all write [] = done
write_all write (x ∷ xs) = do write x; write_all write xs
