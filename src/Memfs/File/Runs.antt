-- ===== src/Memfs/File/Runs.antt =====
-- Histories of calls of MemFile of server/memfs/memfs.go.
use ninep.Prelude.{◌≤◌, ◌≡◌, refl, sym, ap, List, [], ◌∷◌, All, Bool-cases, inl, inr, arith}
use ninep.Memfs.File.{getattr, MemFile, max_mem_file_size, has_bit}
use ninep.Memfs.File.Refines.{
  write_sparse, resize_sparse, run, run_expected, Operation, reads, writes, replaces, sets, gets,
  perform, expected, Sparse, view, IsCall, Holds, read_refines, write_refines, set_refines,
  replace_refines,
}

perform_refines :
    (o : Operation) (f : MemFile)
    → IsCall o
    → Holds f
    → expected o (view f) ≡ ((perform o f).0, view (perform o f).1)
unfolding perform IsCall expected view getattr
perform_refines (reads n offset) f small held = read_refines f n offset small held
perform_refines (writes bs offset) f call held = write_refines f bs offset
perform_refines (replaces bs) f call held = replace_refines f bs
perform_refines (sets a) f call held = set_refines f a
perform_refines gets f call held = refl

-- No call makes a file larger than the limit.
expected_bounded :
    (o : Operation) (s : Sparse)
    → s.size ≤ max_mem_file_size
    → (expected o s).1.size ≤ max_mem_file_size
unfolding expected write_sparse resize_sparse
expected_bounded (reads n offset) s h = h
expected_bounded (writes bs offset) s h = ground arith
expected_bounded (replaces bs) s h = ground arith
expected_bounded (sets a) s h = elim (Bool-cases (has_bit a.valid 8)) [
  | inr kept ↦ rw kept h
  | inl sized ↦ rw sized (ground arith)
]
expected_bounded gets s h = h

pub perform-Holds : (o : Operation) (f : MemFile) → IsCall o → Holds f → Holds (perform o f).1
unfolding Holds view
perform-Holds o f call held =
    rw (sym (ap (λ r. r.1.size) (perform_refines o f call held))) (expected_bounded o (view f) held)

-- For a file within the limit and reads into buffers of fewer than 2^63 bytes: whatever is called, with
-- whatever offsets and sizes, the answers are those of a sparse file, and afterwards the file is the
-- sparse file and no larger than the limit.
pub run_refines :
    (os : List Operation) (f : MemFile)
    → All IsCall os
    → Holds f
    → (run_expected os (view f) ≡ ((run os f).0, view (run os f).1)) × Holds (run os f).1
unfolding run run_expected
run_refines [] f calls held = (refl, held)
run_refines (o ∷ os) f (call, calls) held =
    let one = perform_refines o f call held in
    let rest = run_refines os (perform o f).1 calls (perform-Holds o f call held) in
    (rw (one, rest.0) refl, rest.1)
