-- ===== src/Runner/Outcome.antt =====
-- What a run of `Run` in src/internal/scheduler/runner/runner.go does to the storage, and what it reports.
use db_backup.Base.{
  ℕ, ◌≡◌, ◌≢◌, refl, ◌∙◌, true, false, List, [], ◌∷◌, some, Bytes, codes, bytes_eq_iff, bytes_eq,
  if-intro, In, ◌⊎◌, inl, inr, Bool-cases,
}
use db_backup.SortSlice.{SortSlice}
use db_backup.Storage.Interface.{Storage}
use db_backup.Retention.Listing.{Readers}
use db_backup.Retention.Prune.Delete.{sidecar_name}
use db_backup.Runner.Strategy.{Job, World, go, plan_run}
use db_backup.Runner.Run.{
  Verdict, fine, failed, panicked, Hook, pre, post, Meta, Tools, Broken, has_checksum,
  write_sidecar, create_latest_symlink, asks_latest, latest_name, Result, produced, run_one,
}
use db_backup.Runner.Ending.{
  Ending, early, no_tls, unsent, broken, dry, lost, stored, run_one-Ending,
}

module _ (tools : Tools) (sorter : SortSlice) (st : Storage) (br : Broken st) (io : Readers) where
  open st use {State, content, upload, upload_done, upload_frame}
  open br use {upload_broken, broken_frame, relink_frame}

  write_sidecar-frame :
      (j : Job) (f q : Bytes) (m : Meta) (s : State)
      → q ≢ sidecar_name f
      → content (write_sidecar tools sorter st br io j f m s) q ≡ content s q
  unfolding write_sidecar
  write_sidecar-frame j f q m s n =
      if-intro (λ t. content t q ≡ content s q) (has_checksum j.checksum)
        (λ y. upload_frame (sidecar_name f) (tools.marshal m) q s n) (λ n. refl)

  -- The path is the link to the latest backup that a job asks for.
  abbrev pub IsLatest : World → Job → Bytes → Type 0
  IsLatest w j q = (asks_latest j ≡ true) × (q ≡ latest_name w j)

  create_latest_symlink-frame :
      (w : World) (j : Job) (f q : Bytes) (s : State)
      → (content (create_latest_symlink tools sorter st br io w j f s) q ≡ content s q)
        ⊎ IsLatest w j q
  unfolding create_latest_symlink
  create_latest_symlink-frame w j f q s =
      if-intro (λ t. (content t q ≡ content s q) ⊎ IsLatest w j q) (asks_latest j)
        (λ y. elim (Bool-cases (bytes_eq q (latest_name w j))) [
          | inl e ↦ inr (y, (bytes_eq_iff q (latest_name w j)).0 e)
          | inr n ↦ inl (
              relink_frame (latest_name w j) f q s
                (λ e. cc (n, (bytes_eq_iff q (latest_name w j)).1 e)))
        ])
        (λ n. inl refl)

  -- The path belongs to the file that the second hook is told of.
  abbrev pub Reported : List Hook → Bytes → Type 0
  Reported hooks q =
      (status : Bytes) × (f : Bytes) × In (post status f) hooks × ((q ≡ f) ⊎ (q ≡ sidecar_name f))

  abbrev Framed : World → Job → State → Bytes → Result tools sorter st br io → Type 0
  Framed w j s q (v, hooks, t) =
      (content t q ≡ content s q) ⊎ ((w.dry_run ≡ false) × (Reported hooks q ⊎ IsLatest w j q))

  one_path :
      (w : World) (j : Job) (s t : State) (q f status : Bytes) (v : Verdict)
      → w.dry_run ≡ false
      → (q ≢ f → content t q ≡ content s q)
      → Framed w j s q (v, pre ∷ post status f ∷ [], t)
  one_path w j s t q f status v d h = elim (Bool-cases (bytes_eq q f)) [
    | inl e ↦ inr (d, inl (status, f, inr (inl refl), inl ((bytes_eq_iff q f).0 e)))
    | inr n ↦ inl (h (λ e. cc (n, (bytes_eq_iff q f).1 e)))
  ]

  two_paths :
      (w : World) (j : Job) (s t u x : State) (q f status : Bytes) (v : Verdict)
      → w.dry_run ≡ false
      → (q ≢ f → content t q ≡ content s q)
      → (content u q ≡ content t q) ⊎ IsLatest w j q
      → (q ≢ sidecar_name f → content x q ≡ content u q)
      → Framed w j s q (v, pre ∷ post status f ∷ [], x)
  two_paths w j s t u x q f status v d h (inr l) k = inr (d, inr l)
  two_paths w j s t u x q f status v d h (inl l) k =
      elim (Bool-cases (bytes_eq q (sidecar_name f))) [
        | inl e ↦
            inr (d, inl (status, f, inr (inl refl), inr ((bytes_eq_iff q (sidecar_name f)).0 e)))
        | inr n ↦
            one_path w j s x q f status v d
              (λ m. k (λ e. cc (n, (bytes_eq_iff q (sidecar_name f)).1 e)) ∙ (l ∙ h m))
      ]

  framed :
      (w : World) (j : Job) (s : State) (q : Bytes) (r : Result tools sorter st br io)
      → Ending tools sorter st br io w j s r
      → Framed w j s q r
  framed w j s q _ (early v) = inl refl
  framed w j s q _ no_tls = inl refl
  framed w j s q _ (unsent f) = inl refl
  framed w j s q _ (broken f d) = one_path w j s _ q f _ failed d (λ n. broken_frame f q s n)
  framed w j s q _ (dry f d) = inl refl
  framed w j s q _ (lost f bytes d) =
      one_path w j s _ q f _ failed d (λ n. upload_frame f bytes q s n)
  framed w j s q _ (stored strat since f bytes depth m pl em d p u) =
      two_paths w j s (upload f bytes s).1 _ _ q f _ fine d (λ n. upload_frame f bytes q s n)
        (create_latest_symlink-frame w j f q (upload f bytes s).1)
        (λ n. write_sidecar-frame j f q m _ n)

  -- A run changes no path but the file of which it tells the hook that ends it, that file's sidecar
  -- and the link to the latest backup, and a dry run changes none.
  pub run_one_frame :
      (w : World) (j : Job) (s : State) (q : Bytes)
      → (content (run_one tools sorter st br io w j s).2 q ≡ content s q)
        ⊎ ((w.dry_run ≡ false)
            × (Reported (run_one tools sorter st br io w j s).1 q ⊎ IsLatest w j q))
  run_one_frame w j s q = framed w j s q _ (run_one-Ending tools sorter st br io w j s)

  -- What a run has done when its last hook is told of a file.
  unfoldable pub Kept : World → Job → State → Bytes → Bytes → Result tools sorter st br io → Type 0
  Kept w j s status f (fine, hooks, t) =
      (status ≡ codes "ok")
      × ((w.dry_run ≡ true)
          ⊎ ((strat : Bytes) × (depth : ℕ) × (since : Bytes) × (bytes : Bytes) × (plan_run sorter st
                  io w j s
                ≡ go strat depth since)
              × (produced w strat since ≡ some bytes)
              × ((content t f ≡ some bytes) ⊎ IsLatest w j f)))
  Kept w j s status f (failed, hooks, t) =
      (status ≡ codes "failed") × (content t (sidecar_name f) ≡ content s (sidecar_name f))
  Kept w j s status f (panicked, hooks, t) = ⊥
