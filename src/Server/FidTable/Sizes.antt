-- ===== src/Server/FidTable/Sizes.antt =====
-- server/fid.go: the fids of the table and their number.
use ninep.Prelude.{
  zero, suc, refl, ◌⊎◌, inl, inr, ℕ, ◌≤◌, ◌<◌, ◌≡◌, List, [], ◌∷◌, none, length, count, arith,
}
use ninep.Server.Fid.{FidState}
use ninep.Server.FidTable.{
  FidTable, get, delete, write, clunk, clunk_all, Call, adds, clunks, clunks_all, sets_path,
  updates, marks_opened, updates_and_opens, after, run,
}
use ninep.Server.FidTable.Cases.{
  add_cases, set_path_cases, update_cases, mark_opened_cases, update_and_open_cases,
}
use ninep.Server.FidTable.Lookup.{
  keys, Distinct, absent-get, keys-write, length-write, length-delete, count-keys-delete,
}

module _ {Node Handle : Type 0} (max_fids : ℕ) where
  pub record Inv (ft : FidTable Node Handle) : Type 0 where
    pub distinct : Distinct ft
    pub limit : 0 < max_fids → length ft ≤ max_fids

  pub empty-Inv : Inv []
  unfolding keys
  empty-Inv = record { distinct = record { once = λ v. omega arith }; limit = λ h. omega arith }

  insert-Inv :
      (ft : FidTable Node Handle) (fid : ℕ) (fs : FidState Node Handle)
      → Inv ft
      → (0 < max_fids → length ft < max_fids)
      → get ft fid ≡ none
      → Inv ((fid, fs) ∷ ft)
  unfolding keys
  insert-Inv ft fid fs i room e = record {
    distinct = record { once = λ v. ground (arith, i.distinct.once v, absent-get ft fid e) };
    limit = λ h. omega (arith, room h);
  }

  write-Inv :
      (ft : FidTable Node Handle) (fid : ℕ) (new : FidState Node Handle)
      → Inv ft
      → Inv (write fid new ft)
  write-Inv ft fid new i = record {
    distinct = record { once = λ v. rw (keys-write ft fid new) (i.distinct.once v) };
    limit = λ h. omega (arith, i.limit h, length-write ft fid new);
  }

  delete-Inv : (ft : FidTable Node Handle) (fid : ℕ) → Inv ft → Inv (delete fid ft)
  delete-Inv ft fid i = record {
    distinct = record { once = λ v. omega (arith, i.distinct.once v, count-keys-delete ft fid v) };
    limit = λ h. omega (arith, i.limit h, length-delete ft fid);
  }

  pub after-Inv :
      (ft : FidTable Node Handle) (c : Call Node Handle) → Inv ft → Inv (after max_fids ft c)
  unfolding after clunk clunk_all
  after-Inv ft (adds fid fs) i =
      add_cases ft fid (λ r. Inv r.1) fs max_fids (λ a b. i) (λ old e. i) (insert-Inv ft fid fs i)
  after-Inv ft (clunks fid) i = delete-Inv ft fid i
  after-Inv ft clunks_all i = empty-Inv
  after-Inv ft (sets_path fid p) i =
      set_path_cases ft fid Inv p (λ e. i) (λ fs e. write-Inv ft fid _ i)
  after-Inv ft (updates fid node p) i =
      update_cases ft fid (λ r. Inv r.1) node p (λ e. i) (λ fs e. write-Inv ft fid _ i)
  after-Inv ft (marks_opened fid h) i =
      mark_opened_cases ft fid (λ r. Inv r.1) h (λ e. i) (λ fs e u. i)
        (λ fs e u. write-Inv ft fid _ i)
  after-Inv ft (updates_and_opens fid node h) i =
      update_and_open_cases ft fid (λ r. Inv r.1) node h (λ e. i) (λ fs e u. i)
        (λ fs e u. write-Inv ft fid _ i)

  pub run-Inv :
      (ft : FidTable Node Handle) (cs : List (Call Node Handle)) → Inv ft → Inv (run max_fids ft cs)
  unfolding run
  run-Inv ft [] i = i
  run-Inv ft (c ∷ cs) i = run-Inv (after max_fids ft c) cs (after-Inv ft c i)

limit_or_none :
    {n : ℕ} (max_fids : ℕ) → (0 < max_fids → n ≤ max_fids) → (n ≤ max_fids) ⊎ (max_fids ≡ 0)
limit_or_none zero h = inr refl
limit_or_none (suc m) h = inl (h (omega arith))

-- After any calls on a new table, no fid has two entries, and the table has no more entries than the
-- limit, or the limit is 0.
pub table_bounded :
    (Node Handle : Type 0) (max_fids : ℕ) (cs : List (Call Node Handle)) (v : ℕ)
    → (count v (keys (run max_fids [] cs)) ≤ 1)
      × ((length (run max_fids [] cs) ≤ max_fids) ⊎ (max_fids ≡ 0))
table_bounded Node Handle max_fids cs v =
    let i = run-Inv max_fids [] cs (empty-Inv max_fids) in
    (i.distinct.once v, limit_or_none max_fids i.limit)
