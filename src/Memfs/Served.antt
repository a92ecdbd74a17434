-- ===== src/Memfs/Served.antt =====
-- A MemFile of server/memfs/memfs.go behind the connection of a client: what a File of client/file.go
-- reads and writes there.
pub mod ReadBack
use ninep.Prelude.{
  ℕ, zero, suc, ◌+◌, ◌-◌, ◌^◌, ◌<◌, ◌≤◌, ◌≡◌, refl, sym, ap, ◌∙◌, List, [], ◌∷◌, Bool, true, false,
  Option, none, some, leb, ltb, ◌&&◌, if◌then◌else◌, inl, inr, Bool-cases, leb→le, length, take,
  drop, length-take, length-drop, arith,
}
use mathlib.Core.Path.{subst}
use ninep.Proto.Base.{Bytes}
use ninep.Server.Handlers.Io.{min}
use ninep.Memfs.File.{MemFile, max_mem_file_size, read, write, copy_at, extend}
use ninep.Memfs.File.Contents.{
  read_lem, write_lem, write_refused, length-written, byte_at-written, larger,
}
use ninep.Memfs.File.Positions.{byte_at_extensional}
use ninep.Memfs.File.Refines.{Holds, IsCall, writes, perform}
use ninep.Memfs.File.Runs.{perform-Holds}
use ninep.Client.File.{Connection}
use ninep.Client.File.Reads.{take_all}
use ninep.Client.File.Store.{Store, patch, length-patch, byte_at-patch}

abbrev pub Held : Type 0
Held = (f : MemFile) × Holds f

pub write-Holds : (f : MemFile) (bs : Bytes) (offset : ℕ) → Holds f → Holds (write f bs offset).1
unfolding perform IsCall
write-Holds f bs offset held = perform-Holds (writes bs offset) f tt held

-- Every fid is bound to the one file.
abbrev pub served : ℕ → Connection
served msize = record {
  World = Held;
  msize = msize;
  is_l = true;
  rwrite =
      λ fid offset bs w. let r = write w.0 bs offset in (r.0, (r.1, write-Holds w.0 bs offset w.1));
  rread = λ fid offset count w. (read w.0 count offset, w);
  rreaddir = λ fid offset count w. (none, w);
  signal_shutdown = λ w. w;
}

-- A write of some bytes that the file accepts is a patch.
write-patch :
    (f : MemFile) (bs : Bytes) (offset : ℕ)
    → 0 < length bs
    → copy_at (extend f.contents (offset + length bs)) offset bs ≡ patch f.contents offset bs
write-patch f bs offset some_sent =
    byte_at_extensional _ _
      (length-written f.contents bs offset ∙ sym (length-patch f.contents offset bs some_sent))
      (λ i. byte_at-written f.contents bs offset i ∙ sym (byte_at-patch f.contents offset bs i))

-- The value of an option, or a default.
abbrev or_else {ℓ} : {A : Type ℓ} → A → Option A → A
or_else d none = d
or_else d (some a) = a

-- What a write that the file reports leaves.
some-none {ℓ} : {A : Type ℓ} {a : A} → some a ≡ none → ⊥
some-none h = ground arith

written_lem :
    (f : MemFile) (bs : Bytes) (offset n : ℕ) (g : MemFile)
    → 0 < length bs
    → write f bs offset ≡ (some n, g)
    → (n ≡ length bs) × (g.contents ≡ patch f.contents offset bs)
written_lem f bs offset n g some_sent e =
    elim (Bool-cases (leb (offset + length bs) max_mem_file_size)) [
      | inl fits ↦
          let r = sym e ∙ write_lem f bs offset (leb→le _ _ fits) in
          (ap (λ x. or_else 0 x.0) r, ap (λ x. x.1.contents) r ∙ write-patch f bs offset some_sent)
      | inr big ↦
          let r = sym e ∙ write_refused f bs offset (ground arith) in
          absurd (some-none (ap (λ x. x.0) r))
    ]

read-some :
    (f : MemFile) (n offset : ℕ) (bs : Bytes)
    → n < 2 ^ 32
    → Holds f
    → read f n offset ≡ some bs
    → bs ≡ take (min n (length f.contents - offset)) (drop offset f.contents)
unfolding Holds read
read-some f n offset bs small held e =
    ap (or_else []) (sym e ∙ read_lem f.contents n offset (omega arith) held)

length-read :
    (all : Bytes) (n offset : ℕ)
    → (length (take (min n (length all - offset)) (drop offset all)) ≡ min n (length all - offset))
length-read all n offset =
    length-take (min n (length all - offset)) (drop offset all)
      (let d = length-drop offset all in ground arith)

pub file_store : (msize fid : ℕ) → Store (served msize) fid
file_store msize fid = record {
  contents = λ w. w.0.contents;
  written = λ offset n bs w v some_sent e few.
      let r = written_lem w.0 bs offset n v.0 some_sent (ap (λ x. (x.0, x.1.0)) e) in
      r.1 ∙ ap (patch w.0.contents offset) (sym (take_all n bs (omega arith)));
  read = λ offset count bs w v small e.
      let r = read-some w.0 count offset bs small w.1 (ap (λ x. x.0) e) in
      let size = ap length r ∙ length-read w.0.contents count offset in
      (
        ground arith,
        r ∙ ap (λ n. take n (drop offset w.0.contents)) (sym size),
        sym (ap (λ x. x.1.0.contents) e),
      );
  at_end = λ offset count w v asked small e.
      let r = read-some w.0 count offset [] small w.1 (ap (λ x. x.0) e) in
      let size = ap length r ∙ length-read w.0.contents count offset in ground arith;
}
