-- ===== src/Retention/Prune/Settled.antt =====
-- Pruning settles every path that it was asked to delete, whatever fails on the way, and touches no
-- other path.
use db_backup.Base.{
  ◌≡◌, ◌≢◌, refl, ◌∙◌, Bool, true, false, List, [], ◌∷◌, ◌++◌, none, Bytes, arith, In, inl, inr,
  ◌⊎◌, In-append_left, In-append_right, In-append_cases, Bool-cases, any_of, any_of-true,
  any_of-false, mem, mem-In, In-mem, bytes_eq, bytes_eq_sound, bytes_eq_iff,
}
use db_backup.Storage.Interface.{Status, done, not_exist, failed, Storage}
use db_backup.Retention.Prune.Delete.{
  try_delete, delete_one, delete_loop, delete_backups, targets, Run,
}

module _ (st : Storage) where
  open st use {State, content, delete, delete_done, delete_missing, delete_frame}

  -- A path is gone, or an error names it.
  abbrev Settled : Bytes → Run st → Type 0
  Settled p run = (content run.1 p ≡ none) ⊎ In p run.0

  try_settles : (strict : Bool) (p : Bytes) (run : Run st) → Settled p (try_delete st strict p run)
  unfolding try_delete
  try_settles strict p (errs, s) = by_status (delete p s).0 refl
    where
      here : In p (errs ++ p ∷ [])
      here = In-append_right p errs (p ∷ []) (inl refl)

      by_status : (r : Status) → (delete p s).0 ≡ r → Settled p (try_delete st strict p (errs, s))
      by_status done e = rw (e, try_delete) (inl (delete_done p s e))
      by_status not_exist e = elim (Bool-cases strict) [
        | inl y ↦ rw (e, y, try_delete) (inr here)
        | inr n ↦ rw (e, n, try_delete) (inl (delete_missing p s e))
      ]
      by_status failed e = rw (e, try_delete) (inr here)

  try_errors :
      (strict : Bool) (p q : Bytes) (run : Run st)
      → In q run.0
      → In q (try_delete st strict p run).0
  unfolding try_delete
  try_errors strict p q (errs, s) i = let longer = In-append_left q errs (p ∷ []) i in ground arith

  try_frame :
      (strict : Bool) (p q : Bytes) (run : Run st)
      → q ≢ p
      → content (try_delete st strict p run).1 q ≡ content run.1 q
  unfolding try_delete
  try_frame strict p q (errs, s) n = ground (arith, delete_frame p q s n)

  try_keeps :
      (strict : Bool) (p q : Bytes) (run : Run st)
      → Settled q run
      → Settled q (try_delete st strict p run)
  try_keeps strict p q run h = elim (Bool-cases (bytes_eq q p)) [
    | inl same ↦ rw (bytes_eq_sound q p same) (try_settles strict p run)
    | inr other ↦ elim h [
      | inl gone ↦ inl (try_frame strict p q run (λ e. cc ((bytes_eq_iff q p).1 e, other)) ∙ gone)
      | inr named ↦ inr (try_errors strict p q run named)
    ]
  ]

  -- An error names a path that a deletion was tried on.
  try_source :
      (strict : Bool) (p q : Bytes) (run : Run st)
      → In q (try_delete st strict p run).0
      → In q run.0 ⊎ (q ≡ p)
  unfolding try_delete
  try_source strict p q (errs, s) i = by_status (delete p s).0 refl
    where
      longer : In q (errs ++ p ∷ []) → In q errs ⊎ (q ≡ p)
      longer j = elim (In-append_cases q errs (p ∷ []) j) [
        | inl old ↦ inl old
        | inr (inl e) ↦ inr e
        | inr (inr none_left) ↦ elim none_left [ ]
      ]

      by_status : (r : Status) → (delete p s).0 ≡ r → In q errs ⊎ (q ≡ p)
      by_status done e = inl (rw (e, try_delete) at i)
      by_status not_exist e = elim (Bool-cases strict) [
        | inl y ↦ longer (rw (e, y, try_delete) at i)
        | inr n ↦ inl (rw (e, n, try_delete) at i)
      ]
      by_status failed e = longer (rw (e, try_delete) at i)

  one_settles : (f p : Bytes) (run : Run st) → In p (targets st f) → Settled p (delete_one st f run)
  unfolding delete_one
  one_settles f p run (inl e) = rw e (
      try_keeps false _ f _
        (try_keeps false _ f _ (try_keeps false _ f _ (try_settles true f run))))
  one_settles f p run (inr (inl e)) =
      rw e (try_keeps false _ _ _ (try_keeps false _ _ _ (try_settles false _ _)))
  one_settles f p run (inr (inr (inl e))) = rw e (try_keeps false _ _ _ (try_settles false _ _))
  one_settles f p run (inr (inr (inr (inl e)))) = rw e (try_settles false _ _)
  one_settles f p run (inr (inr (inr (inr none_left)))) = elim none_left [ ]

  one_keeps : (f q : Bytes) (run : Run st) → Settled q run → Settled q (delete_one st f run)
  unfolding delete_one
  one_keeps f q run h =
      try_keeps false _ q _
        (try_keeps false _ q _ (try_keeps false _ q _ (try_keeps true f q run h)))

  one_frame :
      (f q : Bytes) (run : Run st)
      → (In q (targets st f) → ⊥)
      → content (delete_one st f run).1 q ≡ content run.1 q
  unfolding delete_one
  one_frame f q run n =
      try_frame false _ q _ (λ e. n (inr (inr (inr (inl e)))))
      ∙ (try_frame false _ q _ (λ e. n (inr (inr (inl e))))
          ∙ (try_frame false _ q _ (λ e. n (inr (inl e)))
              ∙ try_frame true f q run (λ e. n (inl e))))

  loop_keeps :
      (fs : List Bytes) (q : Bytes) (run : Run st)
      → Settled q run
      → Settled q (delete_loop st fs run)
  unfolding delete_loop
  loop_keeps [] q run h = h
  loop_keeps (f ∷ fs) q run h = loop_keeps fs q (delete_one st f run) (one_keeps f q run h)

  loop_settles :
      (fs : List Bytes) (f p : Bytes) (run : Run st)
      → In f fs
      → In p (targets st f)
      → Settled p (delete_loop st fs run)
  unfolding delete_loop
  loop_settles [] f p run i t = elim i [ ]
  loop_settles (x ∷ fs) f p run (inl e) t =
      loop_keeps fs p (delete_one st x run) (one_settles x p run (rw (← e) t))
  loop_settles (x ∷ fs) f p run (inr i) t = loop_settles fs f p (delete_one st x run) i t

  loop_frame :
      (fs : List Bytes) (q : Bytes) (run : Run st)
      → ((f : Bytes) → In f fs → In q (targets st f) → ⊥)
      → content (delete_loop st fs run).1 q ≡ content run.1 q
  unfolding delete_loop
  loop_frame [] q run n = refl
  loop_frame (f ∷ fs) q run n =
      loop_frame fs q (delete_one st f run) (λ x i. n x (inr i))
      ∙ one_frame f q run (n f (inl refl))

  Settled-or_kept :
      (fs : List Bytes) (s : State) (q : Bytes)
      → ((f : Bytes) × In f fs × In q (targets st f) × Settled q (delete_loop st fs ([], s)))
        ⊎ ((f : Bytes) → In f fs → In q (targets st f) → ⊥)
          × (content (delete_loop st fs ([], s)).1 q ≡ content s q)
  Settled-or_kept fs s q = elim (Bool-cases (any_of (λ f. mem q (targets st f)) fs)) [
    | inl hit ↦
        let (f, i, m) = any_of-true (λ f. mem q (targets st f)) fs hit in
        let t = mem-In q (targets st f) m in inl (f, i, t, loop_settles fs f q ([], s) i t)
    | inr miss ↦
        let apart = λ (f : Bytes) (i : In f fs) (t : In q (targets st f)).
          absurd (
            cc (any_of-false (λ x. mem q (targets st x)) fs f miss i, In-mem q (targets st f) t)) in
        inr (apart, loop_frame fs q ([], s) apart)
  ]

  -- Whichever deletions fail: a path that belongs to a backup to delete is gone afterwards, or an
  -- error names it; every other path holds what it held.
  pub delete_backups_lem :
      (fs : List Bytes) (s : State) (q : Bytes)
      → ((f : Bytes) × In f fs
          × In q (targets st f)
          × ((content (delete_backups st fs s).1 q ≡ none) ⊎ In q (delete_backups st fs s).0))
        ⊎ ((f : Bytes) → In f fs → In q (targets st f) → ⊥)
          × (content (delete_backups st fs s).1 q ≡ content s q)
  unfolding delete_backups
  delete_backups_lem fs s q = Settled-or_kept fs s q
