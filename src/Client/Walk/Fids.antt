-- ===== src/Client/Walk/Fids.antt =====
-- The fids that the Files of client/file.go hold.
use ninep.Prelude.{
  ℕ, ◌≡◌, ◌⊎◌, refl, ap, List, ◌∷◌, Bool, true, false, Option, none, some, ◌==◌, inl, inr,
  Bool-cases, count, remove, length, if◌then◌else◌, arith,
}
use mathlib.Core.Path.{subst}
use ninep.Proto.Base.{Bytes}
use ninep.Proto.Types.{Qid}
use ninep.Client.File.{File, new_file}
use ninep.Client.FidAlloc.{
  FidAllocator, acquire, release, Reach, next_step, acquires, exhausted, releases,
}
use ninep.Client.FidAlloc.Safety.{acquire_unheld}
use ninep.Client.Walk.{
  Clunked, rclunk, server_error, conn_closed, other_error, Remote, Opened, cleanup_with,
  cleanup_fid, last_qid, walked, walked_nowhere, with_fid, is_empty, walk, clone, opened_with,
  open_file, close,
}

-- `held` are the fids of the Files that are open, and those that are lost.
abbrev pub Holding : FidAllocator → List ℕ → Type 0
Holding fa held = Reach (record { alloc = fa; held = held })

-- The operations that open a File.
pub data Way : Type 0 where
  walks : List Bytes → Way
  clones : Way
  opens : List Bytes → ℕ → Way

unfoldable pub obtain : (c : Remote) → Way → File → FidAllocator → c.World → Opened c
obtain c (walks names) f fa w = walk c f names fa w
obtain c clones f fa w = clone c f fa w
obtain c (opens names flags) f fa w = open_file c f names flags fa w

-- `fid` was acquired for a File that could not be opened, and is held for good: its clunk was sent and
-- brought no answer (`other_error`), so the server may still have it bound.
pub record IsLost (c : Remote) (held : List ℕ) (fa : FidAllocator) : Type 0 where
  fid : ℕ
  sent : c.World
  no_answer : (c.rclunk_fid fid sent).0 ≡ other_error
  holding : Holding fa (fid ∷ held)

-- What a call may leave if it opens no File: only an open sends a clunk.
unfoldable NoneLeft : (c : Remote) → Way → List ℕ → FidAllocator → Type 0
NoneLeft c (walks names) held fa = Holding fa held
NoneLeft c clones held fa = Holding fa held
NoneLeft c (opens names flags) held fa = Holding fa held ⊎ IsLost c held fa

-- A File that was opened has a fid that nothing else holds; without one, nothing more is held than
-- before, but for a fid that is lost.
unfoldable pub IsSafe : (c : Remote) → Way → List ℕ → Opened c → Type 0
unfolding NoneLeft
IsSafe c way held (some g, fa, w) = Holding fa (g.fid ∷ held) × (count g.fid held ≡ 0)
IsSafe c way held (none, fa, w) = NoneLeft c way held fa

kept :
    (c : Remote) (way : Way) (held : List ℕ) (fa : FidAllocator)
    → Holding fa held
    → NoneLeft c way held fa
unfolding NoneLeft
kept c (walks names) held fa h = h
kept c clones held fa h = h
kept c (opens names flags) held fa h = inl h

remove-first : (fid : ℕ) (held : List ℕ) → remove fid (fid ∷ held) ≡ held
unfolding remove
remove-first fid held = ground arith

given_back :
    (fa : FidAllocator) (fid : ℕ) (held : List ℕ)
    → Holding fa (fid ∷ held)
    → Holding (release fa fid) held
given_back fa fid held h =
    subst (λ l. Holding (release fa fid) l) (remove-first fid held)
      (next_step h (releases fid (ground arith)))

module _ (c : Remote) (way : Way) (held : List ℕ) where
  -- What an operation does with a fid that was acquired.
  with_fid-IsSafe :
      (fa : FidAllocator) (w : c.World) (next : ℕ → FidAllocator → Opened c)
      → Holding fa held
      → ((fid : ℕ) (fb : FidAllocator)
          → Holding fb (fid ∷ held)
          → count fid held ≡ 0
          → IsSafe c way held (next fid fb))
      → IsSafe c way held (with_fid c (acquire fa) w next)
  unfolding with_fid IsSafe
  with_fid-IsSafe fa w next h safe = go (acquire fa) refl
    where
      go : (r : Option ℕ × FidAllocator) → acquire fa ≡ r → IsSafe c way held (with_fid c r w next)
      go (none, fb) e = kept c way held fb (next_step h (exhausted fb e))
      go (some fid, fb) e =
          safe fid fb (next_step h (acquires fid fb e)) (acquire_unheld _ fid fb h e).0

  if-IsSafe :
      (b : Bool) (x y : Opened c)
      → IsSafe c way held x
      → IsSafe c way held y
      → IsSafe c way held (if b then x else y)
  if-IsSafe true x y hx hy = hx
  if-IsSafe false x y hx hy = hy

  -- A walk that fails gives the fid back.
  walked-IsSafe :
      (fid : ℕ) (names : List Bytes) (fb : FidAllocator)
      (next : List Qid → FidAllocator → c.World → Opened c) (r : Option (List Qid) × c.World)
      → Holding fb (fid ∷ held)
      → ((qs : List Qid) (v : c.World) → IsSafe c way held (next qs fb v))
      → IsSafe c way held (walked c fid names fb next r)
  unfolding walked IsSafe
  walked-IsSafe fid names fb next (none, w) h safe = kept c way held _ (given_back fb fid held h)
  walked-IsSafe fid names fb next (some qs, w) h safe =
      elim (Bool-cases (length qs == length names)) [
        | inl all ↦ rw all (safe qs w)
        | inr fewer ↦ rw fewer (kept c way held _ (given_back fb fid held h))
      ]

  walked_nowhere-IsSafe :
      (fid : ℕ) (fb : FidAllocator) (next : List Qid → FidAllocator → c.World → Opened c)
      (r : Option (List Qid) × c.World)
      → Holding fb (fid ∷ held)
      → ((qs : List Qid) (v : c.World) → IsSafe c way held (next qs fb v))
      → IsSafe c way held (walked_nowhere c fid fb next r)
  unfolding walked_nowhere IsSafe
  walked_nowhere-IsSafe fid fb next (none, w) h safe = kept c way held _ (given_back fb fid held h)
  walked_nowhere-IsSafe fid fb next (some qs, w) h safe = safe qs w

module _ (c : Remote) (held : List ℕ) (fid : ℕ) (fb : FidAllocator) where
  -- A clunk that was answered gives the fid back; without an answer the fid stays held.
  unfoldable pub Cleaned : Clunked → FidAllocator → Type 0
  Cleaned other_error fa = (fa ≡ fb) × Holding fa (fid ∷ held)
  Cleaned e fa = (fa ≡ release fb fid) × Holding fa held

  cleaned :
      (r : Clunked × c.World) → Holding fb (fid ∷ held) → Cleaned r.0 (cleanup_with c fid fb r).1
  unfolding cleanup_with Cleaned
  cleaned (rclunk, w) h = (refl, given_back fb fid held h)
  cleaned (server_error, w) h = (refl, given_back fb fid held h)
  cleaned (conn_closed, w) h = (refl, given_back fb fid held h)
  cleaned (other_error, w) h = (refl, h)

  answer :
      (r : Clunked × c.World)
      → ((cleanup_with c fid fb r).0 ≡ r.0) × ((cleanup_with c fid fb r).2 ≡ r.1)
  unfolding cleanup_with
  answer (rclunk, w) = (refl, refl)
  answer (server_error, w) = (refl, refl)
  answer (conn_closed, w) = (refl, refl)
  answer (other_error, w) = (refl, refl)

  IsLost-or_back :
      (w : c.World) (r : Clunked × c.World)
      → c.rclunk_fid fid w ≡ r
      → Cleaned r.0 (cleanup_with c fid fb r).1
      → Holding (cleanup_with c fid fb r).1 held ⊎ IsLost c held (cleanup_with c fid fb r).1
  unfolding Cleaned
  IsLost-or_back w (rclunk, v) e h = inl h.1
  IsLost-or_back w (server_error, v) e h = inl h.1
  IsLost-or_back w (conn_closed, v) e h = inl h.1
  IsLost-or_back w (other_error, v) e h =
      inr (record { fid = fid; sent = w; no_answer = ap (λ x. x.0) e; holding = h.1 })

  opened-IsSafe :
      (names : List Bytes) (flags : ℕ) (r : Option (Qid × ℕ) × c.World)
      → Holding fb (fid ∷ held)
      → count fid held ≡ 0
      → IsSafe c (opens names flags) held (opened_with c fid fb r)
  unfolding opened_with cleanup_fid new_file IsSafe NoneLeft
  opened-IsSafe names flags (none, w) h new =
      IsLost-or_back w (c.rclunk_fid fid w) refl (cleaned (c.rclunk_fid fid w) h)
  opened-IsSafe names flags (some (q, iounit), w) h new = (h, new)

-- Walk, Clone and OpenFile, in any history of fids acquired and released by their holders, and whatever
-- the server answers: a File that they return has a fid that no open File has and that was not lost. If
-- Walk or Clone returns none, no fid is held that was not held before. If OpenFile returns none, either
-- this is so too, or one fid more is held, and its clunk was sent and brought no answer.
pub obtain-IsSafe :
    (c : Remote) (way : Way) (f : File) (fa : FidAllocator) (held : List ℕ) (w : c.World)
    → Holding fa held
    → IsSafe c way held (obtain c way f fa w)
unfolding obtain walk clone open_file IsSafe NoneLeft new_file
obtain-IsSafe c (walks names) f fa held w h =
    let safe_if = if-IsSafe c (walks names) held in
    safe_if f.closed _ _ h (
      safe_if (is_empty names) _ _ h (
        with_fid-IsSafe c (walks names) held fa w _ h (λ fid fb hb new.
          walked-IsSafe c (walks names) held fid names fb
            (λ qs fd v. (some (new_file fid (last_qid f.qid qs) 0), fd, v)) _ hb
            (λ qs v. (hb, new)))))
obtain-IsSafe c clones f fa held w h = if-IsSafe c clones held f.closed _ _ h (
    with_fid-IsSafe c clones held fa w _ h (λ fid fb hb new.
      walked_nowhere-IsSafe c clones held fid fb
        (λ qs fd v.
          (some (record (new_file fid f.qid f.iounit) { cached_size = f.cached_size }), fd, v))
        _ hb (λ qs v. (hb, new))))
obtain-IsSafe c (opens names flags) f fa held w h =
    let way = opens names flags in
    if-IsSafe c way held f.closed _ _ (inl h) (
      with_fid-IsSafe c way held fa w _ h (λ fid fb hb new.
        if-IsSafe c way held (is_empty names) _ _
          (walked_nowhere-IsSafe c way held fid fb
            (λ qs fd v. opened_with c fid fd (c.ropen fid flags v)) _ hb
            (λ qs v. opened-IsSafe c held fid fb names flags _ hb new))
          (walked-IsSafe c way held fid names fb
            (λ qs fd v. opened_with c fid fd (c.ropen fid flags v)) _ hb
            (λ qs v. opened-IsSafe c held fid fb names flags _ hb new))))

-- Close of a File that is open: if its clunk brings no answer (`other_error`), the allocator is as it was
-- and the fid stays held; else the fid is released, and held no more. Close reports how the clunk
-- ended, the File is closed and otherwise as it was, and any Close after it reports nothing and changes
-- nothing.
pub close_lem :
    (c : Remote) (f : File) (fa : FidAllocator) (held : List ℕ) (w : c.World)
    → f.closed ≡ false
    → Holding fa (f.fid ∷ held)
    → let r = close c f fa w in
      let clunk = c.rclunk_fid f.fid w in
      Cleaned c held f.fid fa clunk.0 r.2
      × (r.0 ≡ some clunk.0)
      × (r.1 ≡ record f { closed = true })
      × (r.3 ≡ clunk.1)
      × ((fb : FidAllocator) (v : c.World) → close c r.1 fb v ≡ (none, r.1, fb, v))
unfolding close cleanup_fid
close_lem c f fa held w live h =
    let clunk = c.rclunk_fid f.fid w in
    rw live (
      cleaned c held f.fid fa clunk h,
      ap some (answer c held f.fid fa clunk).0,
      refl,
      (answer c held f.fid fa clunk).1,
      λ fb v. refl,
    )
