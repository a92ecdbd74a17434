-- ===== src/Memfs/File/Refines.antt =====
-- What MemFile of server/memfs/memfs.go promises: a byte for each position, and a size.
use ninep.Prelude.{
  ℕ, ◌+◌, ◌-◌, ◌<◌, ◌≤◌, ◌^◌, ◌≡◌, refl, sym, ap, List, [], ◌∷◌, Bool, true, false, ◌&&◌, Option,
  none, some, ltb, leb, if◌then◌else◌, length, take, drop, Bool-cases, leb→le, inl, inr, arith,
}
use ninep.Proto.Base.{Bytes}
use ninep.Proto.Types.{Attr, SetAttr}
use ninep.Server.Errno.{efbig}
use ninep.Server.Handlers.Io.{min}
use ninep.Memfs.File.{
  MemFile, max_mem_file_size, default_mode, replace, read, write, getattr, has_bit, setattr,
  or_default, attr_of,
}
use ninep.Memfs.File.Positions.{byte_at}
use ninep.Memfs.File.Contents.{
  bytes_from, larger, bytes_from-byte_at, read_lem, write_lem, write_refused, length-written,
  byte_at-written, byte_at-resize, length-resize,
}

pub data Operation : Type 0 where
  reads : ℕ → ℕ → Operation
  writes : Bytes → ℕ → Operation
  replaces : Bytes → Operation
  sets : SetAttr → Operation
  gets : Operation

pub data Outcome : Type 0 where
  got : Option Bytes → Outcome
  wrote : Option ℕ → Outcome
  done : Option ℕ → Outcome
  attributes : Attr → Outcome

unfoldable pub perform : Operation → MemFile → Outcome × MemFile
perform (reads n offset) f = (got (read f n offset), f)
perform (writes bs offset) f = let r = write f bs offset in (wrote r.0, r.1)
perform (replaces bs) f = let r = replace f bs in (done r.0, r.1)
perform (sets a) f = let r = setattr f a in (done r.0, r.1)
perform gets f = (attributes (getattr f), f)

unfoldable pub run : List Operation → MemFile → List Outcome × MemFile
run [] f = ([], f)
run (o ∷ os) f = let r = perform o f in let rest = run os r.1 in (r.0 ∷ rest.0, rest.1)

-- A file as its clients see it.
pub record Sparse : Type 0 where
  pub size : ℕ
  pub at : ℕ → ℕ
  pub mode : ℕ
  pub uid : ℕ
  pub gid : ℕ

unfoldable pub view : MemFile → Sparse
view f = record {
  size = length f.contents;
  at = byte_at f.contents;
  mode = f.mode;
  uid = f.uid;
  gid = f.gid;
}

-- A write sets the bytes it names, and the size grows to hold them. A gap that it leaves reads as
-- zeros, since `at` is 0 after the size.
unfoldable pub write_sparse : Sparse → Bytes → ℕ → Sparse
write_sparse s bs offset = record s {
  size = larger s.size (offset + length bs);
  at = λ i. if leb offset i && ltb i (offset + length bs) then byte_at bs (i - offset) else s.at i;
}

unfoldable pub resize_sparse : Bool → Sparse → ℕ → Sparse
resize_sparse false s n = s
resize_sparse true s n = record s { size = n; at = λ i. if ltb i n then s.at i else 0 }

unfoldable pub expected : Operation → Sparse → Outcome × Sparse
expected (reads n offset) s = (got (some (bytes_from s.at offset (min n (s.size - offset)))), s)
expected (writes bs offset) s =
    if leb (offset + length bs) max_mem_file_size
    then (wrote (some (length bs)), write_sparse s bs offset)
    else (wrote none, s)
expected (replaces bs) s =
    if leb (length bs) max_mem_file_size
    then (done none, record s { size = length bs; at = byte_at bs })
    else (done (some efbig), s)
expected (sets a) s =
    let sized = has_bit a.valid 8 in
    let t = resize_sparse sized s a.size in
    if sized && ltb max_mem_file_size a.size then (done (some efbig), s) else (
      done none,
      record t {
        mode = if has_bit a.valid 1 then a.mode else s.mode;
        uid = if has_bit a.valid 2 then a.uid else s.uid;
        gid = if has_bit a.valid 4 then a.gid else s.gid;
      },
    )
expected gets s = (attributes (attr_of (or_default s.mode default_mode) s.uid s.gid s.size 1), s)

unfoldable pub run_expected : List Operation → Sparse → List Outcome × Sparse
run_expected [] s = ([], s)
run_expected (o ∷ os) s =
    let r = expected o s in let rest = run_expected os r.1 in (r.0 ∷ rest.0, rest.1)

-- The buffer of a read is a Go slice.
unfoldable pub IsCall : Operation → Type 0
IsCall (reads n offset) = n < 2 ^ 63
IsCall (writes bs offset) = Unit
IsCall (replaces bs) = Unit
IsCall (sets a) = Unit
IsCall gets = Unit

unfoldable pub Holds : MemFile → Type 0
Holds f = length f.contents ≤ max_mem_file_size

-- A file whose size and bytes are known is viewed as these.
same_view :
    (bs : Bytes) (mode uid gid n : ℕ) (at : ℕ → ℕ)
    → length bs ≡ n
    → ((i : ℕ) → byte_at bs i ≡ at i)
    → (view (record { contents = bs; mode = mode; uid = uid; gid = gid })
        ≡ record { size = n; at = at; mode = mode; uid = uid; gid = gid })
unfolding view
same_view bs mode uid gid n at sizes bytes =
    λ j. record { size = sizes j; at = λ i. bytes i j; mode = mode; uid = uid; gid = gid }

segment :
    (bs : Bytes) (n offset : ℕ)
    → (bytes_from (byte_at bs) offset (min n (length bs - offset))
        ≡ take (min n (length bs - offset)) (drop offset bs))
unfolding bytes_from
segment bs n offset = elim (Bool-cases (leb (length bs) offset)) [
  | inl past ↦ let nothing : min n (length bs - offset) ≡ 0 = ground arith in rw nothing refl
  | inr within ↦ sym (bytes_from-byte_at bs offset (min n (length bs - offset)) (ground arith))
]

module _ (f : MemFile) where
  pub read_refines :
      (n offset : ℕ)
      → n < 2 ^ 63
      → Holds f
      → expected (reads n offset) (view f) ≡ (got (read f n offset), view f)
  unfolding expected view read Holds
  read_refines n offset small held =
      rw (read_lem f.contents n offset small held, segment f.contents n offset) refl

  pub write_refines :
      (bs : Bytes) (offset : ℕ)
      → expected (writes bs offset) (view f)
        ≡ (wrote (write f bs offset).0, view (write f bs offset).1)
  unfolding expected view write_sparse
  write_refines bs offset = elim (Bool-cases (leb (offset + length bs) max_mem_file_size)) [
    | inl fits ↦
        rw (fits, write_lem f bs offset (leb→le _ _ fits))
          (ap (λ v. (wrote (some (length bs)), v))
            (sym (
              same_view _ f.mode f.uid f.gid _ _ (length-written f.contents bs offset)
                (byte_at-written f.contents bs offset))))
    | inr big ↦ rw (big, write_refused f bs offset (ground arith)) refl
  ]

  pub set_refines :
      (a : SetAttr) → expected (sets a) (view f) ≡ (done (setattr f a).0, view (setattr f a).1)
  unfolding expected view resize_sparse setattr
  set_refines a = elim (Bool-cases (has_bit a.valid 8)) [
    | inr kept ↦ rw kept refl
    | inl sized ↦ elim (Bool-cases (ltb max_mem_file_size a.size)) [
      | inl big ↦ rw (sized, big) refl
      | inr fits ↦
          rw (sized, fits)
            (ap (λ v. (done none, v))
              (sym (
                same_view _ _ _ _ _ _ (length-resize f.contents a.size)
                  (byte_at-resize f.contents a.size))))
    ]
  ]

  pub replace_refines :
      (bs : Bytes)
      → expected (replaces bs) (view f) ≡ (done (replace f bs).0, view (replace f bs).1)
  unfolding expected view replace
  replace_refines bs = ground arith
