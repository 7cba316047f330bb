-- ===== src/Runner/Ending.antt =====
-- The ways in which a run of `Run` in src/internal/scheduler/runner/runner.go can end.
use db_backup.Base.{
  ℕ, ◌≡◌, refl, ap, true, false, ◌&&◌, [], ◌∷◌, Option, none, some, Bytes, codes, if-intro, In, inl,
  inr, subst,
}
use db_backup.SortSlice.{SortSlice}
use db_backup.Storage.Interface.{Storage, Status, done, not_exist}
use db_backup.Storage.Interface
use db_backup.Retention.Listing.{Readers}
use db_backup.Runner.Strategy.{
  Job, World, Start, refused, nothing, going, start_run, Plan, go, refuse, panic, plan_run,
}
use db_backup.Runner.Run.{
  Verdict, fine, failed, panicked, pre, post, Meta, Tools, Broken, file_name, base_file, meta,
  write_sidecar, create_latest_symlink, Result, after_upload, deliver, make_backup, produced,
  run_one,
}

-- The hook behind the first is the only one that is told of a file.
pub told : (a b c d : Bytes) → In (post a b) (pre ∷ post c d ∷ []) → (a ≡ c) × (b ≡ d)
told a b c d (inl e) = cc
told a b c d (inr (inl e)) = (cc, cc)
told a b c d (inr (inr e)) = absurd e

module _ (tools : Tools) (sorter : SortSlice) (st : Storage) (br : Broken st) (io : Readers) where
  open st use {State, content, upload, upload_done, upload_frame}
  open br use {upload_broken, broken_frame}

  -- The ways in which a run can end.
  pub data Ending (w : World) (j : Job) (s : State) : Result tools sorter st br io → Type 0 where
    early : (v : Verdict) → Ending w j s (v, pre ∷ [], s)
    no_tls : Ending w j s (failed, [], s)
    unsent : (f : Bytes) → Ending w j s (failed, pre ∷ post (codes "failed") f ∷ [], s)
    broken :
        (f : Bytes)
        → w.dry_run ≡ false
        → Ending w j s (failed, pre ∷ post (codes "failed") f ∷ [], upload_broken f s)
    dry : (f : Bytes) → w.dry_run ≡ true → Ending w j s (fine, pre ∷ post (codes "ok") f ∷ [], s)
    lost :
        (f bytes : Bytes)
        → w.dry_run ≡ false
        → Ending w j s (failed, pre ∷ post (codes "failed") f ∷ [], (upload f bytes s).1)
    stored :
        (strat since f bytes : Bytes) (depth : ℕ) (m : Meta)
        → plan_run sorter st io w j s ≡ go strat depth since
        → m
          ≡ meta tools sorter st br io w j strat depth
              (base_file tools sorter st br io w j strat s)
              f
        → w.dry_run ≡ false
        → produced w strat since ≡ some bytes
        → (upload f bytes s).0 ≡ done
        → Ending w j s (
          fine,
          pre ∷ post (codes "ok") f ∷ [],
          write_sidecar tools sorter st br io j f m
              (create_latest_symlink tools sorter st br io w j f (upload f bytes s).1),
        )

  uploaded-Ending :
      (w : World) (j : Job) (s : State) (strat since f bytes : Bytes) (depth : ℕ) (m : Meta)
      (r : Status × State)
      → plan_run sorter st io w j s ≡ go strat depth since
      → m
        ≡ meta tools sorter st br io w j strat depth (base_file tools sorter st br io w j strat s) f
      → w.dry_run ≡ false
      → produced w strat since ≡ some bytes
      → upload f bytes s ≡ r
      → Ending w j s (after_upload tools sorter st br io w j f m r)
  uploaded-Ending w j s strat since f bytes depth m (done, t) g em d p e =
      subst
        (λ x. Ending w j s (
          fine,
          pre ∷ post (codes "ok") f ∷ [],
          write_sidecar tools sorter st br io j f m
              (create_latest_symlink tools sorter st br io w j f x),
        ))
        (ap (λ (x : Status × State). x.1) e)
        (stored strat since f bytes depth m g em d p (ap (λ (x : Status × State). x.0) e))
  uploaded-Ending w j s strat since f bytes depth m (not_exist, t) g em d p e =
      subst (λ x. Ending w j s (failed, pre ∷ post (codes "failed") f ∷ [], x))
        (ap (λ (x : Status × State). x.1) e) (lost f bytes d)
  uploaded-Ending w j s strat since f bytes depth m (Interface.failed, t) g em d p e =
      subst (λ x. Ending w j s (failed, pre ∷ post (codes "failed") f ∷ [], x))
        (ap (λ (x : Status × State). x.1) e) (lost f bytes d)

  deliver-Ending :
      (w : World) (j : Job) (s : State) (strat since f : Bytes) (depth : ℕ) (m : Meta)
      (out : Option Bytes)
      → plan_run sorter st io w j s ≡ go strat depth since
      → m
        ≡ meta tools sorter st br io w j strat depth (base_file tools sorter st br io w j strat s) f
      → produced w strat since ≡ out
      → Ending w j s (deliver tools sorter st br io w j f m out s)
  deliver-Ending w j s strat since f depth m none g em p =
      if-intro (λ x. Ending w j s (failed, pre ∷ post (codes "failed") f ∷ [], x)) w.dry_run
        (λ d. unsent f) (λ d. broken f d)
  deliver-Ending w j s strat since f depth m (some bytes) g em p =
      if-intro (Ending w j s) w.dry_run (λ d. dry f d)
        (λ d. uploaded-Ending w j s strat since f bytes depth m (upload f bytes s) g em d p refl)

  make_backup-Ending :
      (w : World) (j : Job) (strat : Bytes) (depth : ℕ) (since : Bytes) (s : State)
      → plan_run sorter st io w j s ≡ go strat depth since
      → Ending w j s (make_backup tools sorter st br io w j strat depth since s)
  unfolding make_backup
  make_backup-Ending w j strat depth since s g =
      let f : Bytes = file_name tools sorter st br io w j strat s in
      let m : Meta =
        meta tools sorter st br io w j strat depth (base_file tools sorter st br io w j strat s)
          f in
      if-intro (Ending w j s) (w.encryptor_builds && w.connects)
        (λ y. deliver-Ending w j s strat since f depth m (produced w strat since) g refl refl)
        (λ n. unsent f)

  planned-Ending :
      (w : World) (j : Job) (s : State) (p : Plan)
      → plan_run sorter st io w j s ≡ p
      → Ending w j s (elim p [
        | refuse ↦ (failed, pre ∷ [], s)
        | panic ↦ (panicked, pre ∷ [], s)
        | go strat depth since ↦ make_backup tools sorter st br io w j strat depth since s
      ])
  planned-Ending w j s refuse g = early failed
  planned-Ending w j s panic g = early panicked
  planned-Ending w j s (go strat depth since) g = make_backup-Ending w j strat depth since s g

  started-Ending :
      (w : World) (j : Job) (s : State) (b : Start) (r : Result tools sorter st br io)
      → Ending w j s r
      → Ending w j s
          (elim b [ refused ↦ (failed, pre ∷ [], s) | nothing ↦ (fine, pre ∷ [], s) | going ↦ r ])
  started-Ending w j s refused r h = early failed
  started-Ending w j s nothing r h = early fine
  started-Ending w j s going r h = h

  pub run_one-Ending :
      (w : World) (j : Job) (s : State) → Ending w j s (run_one tools sorter st br io w j s)
  unfolding run_one
  run_one-Ending w j s =
      if-intro (Ending w j s) w.tls_builds
        (λ y.
          started-Ending w j s (start_run tools.path_match w j) _
            (planned-Ending w j s (plan_run sorter st io w j s) refl))
        (λ n. no_tls)
