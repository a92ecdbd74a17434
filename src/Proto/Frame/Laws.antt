-- ===== src/Proto/Frame/Laws.antt =====
-- What a dialect promises of its messages, and the laws of the switch.
use ninep.Prelude.{
  ℕ, ◌≡◌, sym, List, [], ◌∷◌, ◌+◌, length, append-nil, Option, some, All, ◌==◌, ==_iff, Bool-cases,
  inl, inr,
}
use mathlib.Core.Path.{subst₂}
use ninep.Proto.Base.{Bytes, ok, Decoder, IsU8, header_size, ◌>>◌, done}
use ninep.Proto.Encode.{write_uint8, write_uint16, write_uint32, write_bytes}
use ninep.Proto.Frame.{Dialect, frame, encode_frame, switch}
use ninep.Proto.Laws.Reads.{Reads, body_limit}
use ninep.Proto.Laws.Recodes.{Whole}

-- A message's type byte names its reader, which gives back what its writer wrote; and what a
-- reader accepts is a message in range, of that type, whose writer gives the same bytes.
pub record IsDialect (d : Dialect) : Type 1 where
  pub InRange : d.Message → Type 0
  pub type_byte : (m : d.Message) → IsU8 (d.type_of m)
  pub constructs :
      (m : d.Message)
      → InRange m
      → (read : Decoder d.Message) × (d.new_message (d.type_of m) ≡ ok read)
        × Reads (d.encode_to m) body_limit read m
  pub recodes :
      (t : ℕ) (read : Decoder d.Message)
      → d.new_message t ≡ ok read
      → Whole read d.encode_to (λ m. InRange m × (d.type_of m ≡ t))

some_inj : {A : Type 0} {a b : A} → ◌≡◌ {A = Option A} (some a) (some b) → a ≡ b
some_inj h = cc

-- What holds of every case holds of the case taken.
pub switch-All :
    {A : Type 0} (P : ℕ → A → Type 0) (t : ℕ) (cases : List (ℕ × A)) (a : A)
    → All (λ c. P c.0 c.1) cases
    → switch t cases ≡ some a
    → P t a
unfolding switch
switch-All P t [] a h e = cc
switch-All P t ((u, b) ∷ cases) a (hb, h) e = elim (Bool-cases (t == u)) [
  | inl same ↦
      let first : some b ≡ some a = rw same at e in
      subst₂ P (sym ((==_iff t u).0 same)) (some_inj first) hb
  | inr other ↦ switch-All P t cases a h (rw other at e)
]

-- A frame is its four parts, written one after the other.
pub frame-writers :
    (type tag : ℕ) (body : Bytes)
    → (write_uint32 (header_size + length body)
        >> (write_uint8 type >> (write_uint16 tag >> (write_bytes body >> done))))
      ≡ ok (frame type tag body)
unfolding frame write_uint32 write_uint8 write_uint16 write_bytes done ◌>>◌
frame-writers type tag body = rw (append-nil body)

pub encode_frame-eq-ok :
    (d : Dialect) (tag : ℕ) (m : d.Message) (body : Bytes)
    → d.encode_to m ≡ ok body
    → encode_frame d tag m ≡ ok (frame (d.type_of m) tag body)
unfolding encode_frame
encode_frame-eq-ok d tag m body e = rw (e, encode_frame)
