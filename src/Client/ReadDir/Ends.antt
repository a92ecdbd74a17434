-- ===== src/Client/ReadDir/Ends.antt =====
-- The loop of client/readdir.go comes to an end, whatever the server answers.
use ninep.Prelude.{
  ℕ, zero, suc, ◌+◌, ◌-◌, ◌^◌, ◌<◌, ◌≤◌, ◌≡◌, refl, ap, List, [], ◌∷◌, ◌++◌, Bool, true, false,
  Option, none, some, ltb, leb, inl, inr, Bool-cases, All, All-append, All-take, All-drop, length,
  take, drop, length-take, length-drop, arith,
}
use ninep.Proto.Base.{Bytes, IsU8, from_le}
use ninep.Proto.Laws.Bytes.{from_le-lt}
use ninep.Proto.Dirent.{
  Dirent, ParseError, parse_one, Step, parsed, stopped, parse_loop, parse_dirents, header,
  min_entry_size,
}
use ninep.Client.File.{Connection, File, Ending, success, unfinished, failure, max_chunk}
use ninep.Client.ReadDir.{
  is_full, Batch, collect, Listing, advanced, parsed_batch, listed, read_dir_loop, read_dir,
}

abbrev pub is_unfinished : Ending → Bool
is_unfinished success = false
is_unfinished unfinished = true
is_unfinished (failure f) = false

-- A server sends bytes.
unfoldable pub SendsBytes : Connection → Type 0
SendsBytes c =
    (fid offset count : ℕ) (w v : c.World) (bs : Bytes)
    → c.rreaddir fid offset count w ≡ (some bs, v)
    → All IsU8 bs

abbrev Offset : Dirent → Type 0
Offset d = d.offset < 2 ^ 64

abbrev StepBytes : Step → Type 0
StepBytes (parsed d rest) = Offset d × All IsU8 rest
StepBytes (stopped e) = Unit

parse_one-bytes : (bs : Bytes) → All IsU8 bs → StepBytes (parse_one bs)
unfolding parse_one header
parse_one-bytes bs h = elim (Bool-cases (ltb (length bs) min_entry_size)) [
  | inl short ↦ rw short tt
  | inr long ↦
      elim (Bool-cases (ltb (length (drop min_entry_size bs)) (from_le (take 2 (drop 22 bs))))) [
        | inl cut ↦ rw (long, cut) tt
        | inr whole ↦
            rw (long, whole)
              (
                wide (ground arith),
                All-drop IsU8 (from_le (take 2 (drop 22 bs))) (drop min_entry_size bs)
                    (All-drop IsU8 min_entry_size bs h),
              )
      ]
]
  where
    wide : min_entry_size ≤ length bs → from_le (take 8 (drop 13 bs)) < 2 ^ 64
    wide k =
        let d = length-drop 13 bs in
        let n = length-take 8 (drop 13 bs) (omega arith) in
        let r =
          from_le-lt (take 8 (drop 13 bs)) (All-take IsU8 8 (drop 13 bs) (All-drop IsU8 13 bs h)) in
        let p = ap (λ x. 256 ^ x) n in omega arith

parse_loop-bytes :
    (fuel : ℕ) (out : List Dirent) (bs : Bytes)
    → All Offset out
    → All IsU8 bs
    → All Offset (parse_loop fuel out bs).0
unfolding parse_loop
parse_loop-bytes fuel out [] ho hb = ho
parse_loop-bytes zero out (b ∷ bs) ho hb = ho
parse_loop-bytes (suc fuel) out (b ∷ bs) ho hb =
    go (parse_one (b ∷ bs)) (parse_one-bytes (b ∷ bs) hb) (λ d rest hd hr.
      parse_loop-bytes fuel (out ++ (d ∷ [])) rest (All-append Offset out (d ∷ []) ho (hd, tt)) hr)
  where
    go :
        (s : Step)
        → StepBytes s
        → ((d : Dirent) (rest : Bytes)
            → Offset d
            → All IsU8 rest
            → All Offset (parse_loop fuel (out ++ (d ∷ [])) rest).0)
        → (All Offset
            (elim s as (λ x. List Dirent × Option ParseError) [
              | parsed d rest ↦ parse_loop fuel (out ++ (d ∷ [])) rest
              | stopped e ↦ (out, some e)
            ]).0)
    go (parsed d rest) h next = next d rest h.0 h.1
    go (stopped e) h next = ho

collect-cursor :
    (n : ℕ) (es : List Dirent) (k : ℕ) (ds : List Dirent)
    → k < 2 ^ 64
    → All Offset ds
    → (collect n es k ds).cursor < 2 ^ 64
unfolding collect
collect-cursor n es k [] hk h = hk
collect-cursor n es k (d ∷ ds) hk (hd, h) = elim (Bool-cases (is_full n (es ++ (d ∷ [])))) [
  | inl full ↦ rw full hd
  | inr more ↦ rw more (collect-cursor n (es ++ (d ∷ [])) d.offset ds hd h)
]

-- A round comes to an end, if the next one does whenever the cursor has moved on.
module _ (c : Connection) (n : ℕ) (es : List Dirent) (k : ℕ) (small : k < 2 ^ 64)
    (next : List Dirent → ℕ → c.World → Listing c)
    (fine : (fs : List Dirent) (j : ℕ) (v : c.World)
      → k < j
      → j < 2 ^ 64
      → is_unfinished (next fs j v).1 ≡ false) where
  advanced_ends :
      (b : Batch) (w : c.World)
      → b.cursor < 2 ^ 64
      → is_unfinished (advanced c k b next w).1 ≡ false
  unfolding advanced
  advanced_ends b w h = elim (Bool-cases b.full) [
    | inl full ↦ rw full refl
    | inr more ↦ elim (Bool-cases (leb b.cursor k)) [
      | inl stuck ↦ rw (more, stuck) refl
      | inr on ↦ rw (more, on) (fine b.entries b.cursor w (ground arith) h)
    ]
  ]

  parsed_ends :
      (r : List Dirent × Option ParseError) (w : c.World)
      → All Offset r.0
      → is_unfinished (parsed_batch c n es k r next w).1 ≡ false
  unfolding parsed_batch
  parsed_ends (ds, some e) w h = refl
  parsed_ends ([], none) w h = refl
  parsed_ends (d ∷ ds, none) w h =
      advanced_ends (collect n es k (d ∷ ds)) w (collect-cursor n es k (d ∷ ds) small h)

  listed_ends :
      (r : Option Bytes × c.World)
      → ((bs : Bytes) (v : c.World) → r ≡ (some bs, v) → All IsU8 bs)
      → is_unfinished (listed c n es k next r).1 ≡ false
  unfolding listed
  listed_ends (none, w) h = refl
  listed_ends (some [], w) h = refl
  listed_ends (some (b ∷ bs), w) h = parsed_ends (parse_dirents (b ∷ bs)) w (
      unfold parse_dirents in parse_loop-bytes (length (b ∷ bs)) [] (b ∷ bs) tt (h (b ∷ bs) w refl))

read_dir_loop_ends :
    (c : Connection) (fid m n fuel : ℕ) (es : List Dirent) (k : ℕ) (w : c.World)
    → SendsBytes c
    → k < 2 ^ 64
    → 2 ^ 64 ≤ fuel + k
    → is_unfinished (read_dir_loop c fid m n fuel es k w).1 ≡ false
unfolding read_dir_loop SendsBytes
read_dir_loop_ends c fid m n zero es k w sends small enough = absurd (omega arith)
read_dir_loop_ends c fid m n (suc fuel) es k w sends small enough =
    elim (Bool-cases (is_full n es)) [
      | inl full ↦ rw full refl
      | inr more ↦ rw more (
          listed_ends c n es k small (λ es k v. read_dir_loop c fid m n fuel es k v)
            (λ fs j v on hj. read_dir_loop_ends c fid m n fuel fs j v sends hj (omega arith))
            (c.rreaddir fid k m w) (λ bs v e. sends fid k m w v bs e))
    ]

-- ReadDir returns: whatever bytes the server answers with, the loop ends, with the entries or an error,
-- before its cursor could pass the last uint64.
pub read_dir_ends :
    (c : Connection) (f : File) (n : ℕ) (w : c.World)
    → SendsBytes c
    → f.readdir_offset < 2 ^ 64
    → is_unfinished (read_dir c f n w).0.1 ≡ false
unfolding read_dir
read_dir_ends c f n w sends small = elim (Bool-cases f.closed) [
  | inl shut ↦ rw shut refl
  | inr live ↦ elim (Bool-cases c.is_l) [
    | inr other ↦ rw (live, other) refl
    | inl is_l ↦
        rw (live, is_l)
          (read_dir_loop_ends c f.fid (max_chunk c.msize f.iounit) n (2 ^ 64 - f.readdir_offset) []
            f.readdir_offset w sends small (omega arith))
  ]
]
