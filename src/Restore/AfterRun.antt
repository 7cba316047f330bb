-- ===== src/Restore/AfterRun.antt =====
-- A restore (`cmdRestore` of src/cmd/dbb/restore.go) of the backup that a run (`Run` of
-- src/internal/scheduler/runner/runner.go) has left.
use db_backup.Base.{
  ℕ, ◌≡◌, ◌≢◌, refl, sym, ap, ◌∙◌, subst, true, false, ◌&&◌, ◌||◌, ◌++◌, List, [], ◌∷◌, Option,
  none, some, Bytes, codes, bytes_eq, if-intro, In, arith, ◌⊎◌, inl, inr, Bool-cases, ℤ, pos, leb_ℤ,
}
use db_backup.Text.{has_suffix, trim_suffix}
use db_backup.SortSlice.{SortSlice}
use db_backup.Storage.Interface.{Entry, Storage, done}
use db_backup.Retention.Listing.{Readers, read_sidecar}
use db_backup.Retention.Prune.Delete.{sidecar_name}
use db_backup.Runner.Chain.{
  is_candidate, latest_scan, find_last_chain_parent, find_last_full_backup,
}
use db_backup.Runner.Strategy.{Job, World, go, plan_run, is_full, job_prefix}
use db_backup.Runner.Run.{
  pre, post, Meta, Tools, Broken, has_checksum, base_file, write_sidecar, create_latest_symlink,
  Result, run_one,
}
use db_backup.Runner.Ending.{
  Ending, early, no_tls, unsent, broken, dry, lost, stored, told, run_one-Ending,
}
use db_backup.Runner.Base.{AreDated, base_file-ne-nil}
use db_backup.Restore.Chain.{sidecar_base, next_base}

-- Neither an upload nor a download fails.
pub record IsReliable (st : Storage) : Type 0 where
  pub uploads : (p c : Bytes) (s : st.State) → (st.upload p c s).0 ≡ done
  pub downloads : (p : Bytes) (s : st.State) → st.download p s ≡ st.content s p

-- The end of a name that the search for a base passes over.
abbrev IsPlain : Bytes → Type 0
IsPlain b = has_suffix b (codes ".json") ≡ false

nil-IsPlain : IsPlain []
unfolding has_suffix
nil-IsPlain = refl

latest_scan-IsPlain :
    (prefix : Bytes) (es : List Entry) (latest : Bytes) (ts : ℤ)
    → IsPlain latest
    → IsPlain (latest_scan (is_candidate prefix) es latest ts)
unfolding latest_scan
latest_scan-IsPlain prefix [] latest ts h = h
latest_scan-IsPlain prefix (e ∷ es) latest ts h = latest_scan-IsPlain prefix es _ _ (
    if-intro IsPlain (is_candidate prefix e && leb_ℤ ts e.mod_time) (λ y. ground (arith, y))
      (λ n. h))

not_failed : (f g : Bytes) → In (post (codes "ok") f) (pre ∷ post (codes "failed") g ∷ []) → ⊥
unfolding bytes_eq
not_failed f g h =
    cc (ap (λ b. bytes_eq b (codes "ok")) (told (codes "ok") f (codes "failed") g h).0)

module _ (tools : Tools) (sorter : SortSlice) (st : Storage) (br : Broken st) (io : Readers) where
  open st use {State, content, upload, upload_done, download, list}

  base_file-IsPlain :
      (w : World) (j : Job) (strat : Bytes) (s : State)
      → IsPlain (base_file tools sorter st br io w j strat s)
  unfolding base_file find_last_chain_parent find_last_full_backup
  base_file-IsPlain w j strat s =
      if-intro IsPlain (w.dry_run || is_full strat) (λ y. nil-IsPlain)
        (λ n.
          if-intro IsPlain (bytes_eq strat (codes "differential"))
            (λ y. scanned (job_prefix w j ++ codes "full-") (list [] s))
            (λ m. scanned (job_prefix w j) (list [] s)))
    where
      scanned :
          (prefix : Bytes) (o : Option (List Entry))
          → IsPlain
              (elim o [ none ↦ [] | some es ↦ latest_scan (is_candidate prefix) es [] (pos 0) ])
      scanned prefix none = nil-IsPlain
      scanned prefix (some es) = latest_scan-IsPlain prefix es [] (pos 0) nil-IsPlain

  -- The plan of the run, and that a restore goes from the file to the base that the run found.
  abbrev pub Resumes : World → Job → State → Bytes → State → Type 0
  Resumes w j s f t =
      (strat : Bytes) × (depth : ℕ) × (since : Bytes) × (plan_run sorter st io w j s
        ≡ go strat depth since)
      × (next_base st io [] f t f ≡ base_file tools sorter st br io w j strat s)
      × ((bytes_eq strat (codes "full") ≡ true)
          ⊎ (bytes_eq strat (codes "differential") ≡ true)
          ⊎ (base_file tools sorter st br io w j strat s ≢ []))

  found_base :
      (f b : Bytes) (m : Meta) (t : State)
      → download (sidecar_name f) t ≡ some b
      → io.unmarshal b ≡ some m.sidecar
      → sidecar_base st io t f ≡ m.sidecar.base
  unfolding read_sidecar
  found_base f b m t d u = ground (arith, d, u)

  read_back :
      (j : Job) (f : Bytes) (m : Meta) (s : State)
      → IsReliable st
      → io.unmarshal (tools.marshal m) ≡ some m.sidecar
      → has_checksum j.checksum ≡ true
      → sidecar_base st io (write_sidecar tools sorter st br io j f m s) f ≡ m.sidecar.base
  unfolding write_sidecar
  read_back j f m s r u c =
      let text : Bytes = tools.marshal m in
      let t : State = (upload (sidecar_name f) text s).1 in
      let e : content t (sidecar_name f) ≡ some text =
        upload_done (sidecar_name f) text s (r.uploads (sidecar_name f) text s) in
      rw c (found_base f text m t (r.downloads (sidecar_name f) t ∙ e) u)

  next_base-plain :
      (f b : Bytes) (t : State)
      → IsPlain b
      → sidecar_base st io t f ≡ b
      → next_base st io [] f t f ≡ b
  unfolding next_base trim_suffix bytes_eq
  next_base-plain f b t p e = ground (arith, p, e)

  has_base :
      (w : World) (j : Job) (s : State) (strat since : Bytes) (depth : ℕ) (es : List Entry)
      → list [] s ≡ some es
      → AreDated es
      → plan_run sorter st io w j s ≡ go strat depth since
      → (bytes_eq strat (codes "full") ≡ true)
        ⊎ (bytes_eq strat (codes "differential") ≡ true)
        ⊎ (base_file tools sorter st br io w j strat s ≢ [])
  has_base w j s strat since depth es l d p = elim (Bool-cases (bytes_eq strat (codes "full"))) [
    | inl y ↦ inl y
    | inr n ↦ elim (Bool-cases (bytes_eq strat (codes "differential"))) [
      | inl y ↦ inr (inl y)
      | inr m ↦
          inr (inr (base_file-ne-nil tools sorter st br io w j s strat since depth es l d p n m))
    ]
  ]

  -- JSON reads back what it has written.
  abbrev pub ReadsBack : Type 0
  ReadsBack = (m : Meta) → io.unmarshal (tools.marshal m) ≡ some m.sidecar

  resumes :
      (w : World) (j : Job) (s : State) (f : Bytes) (es : List Entry)
      (r : Result tools sorter st br io)
      → IsReliable st
      → ReadsBack
      → has_checksum j.checksum ≡ true
      → w.dry_run ≡ false
      → list [] s ≡ some es
      → AreDated es
      → Ending tools sorter st br io w j s r
      → In (post (codes "ok") f) r.1
      → Resumes w j s f r.2
  resumes w j s f es _ rel back c d l a (early v) (inl h) = cc
  resumes w j s f es _ rel back c d l a (early v) (inr h) = absurd h
  resumes w j s f es _ rel back c d l a no_tls h = absurd h
  resumes w j s f es _ rel back c d l a (unsent g) h = absurd (not_failed f g h)
  resumes w j s f es _ rel back c d l a (broken g x) h = absurd (not_failed f g h)
  resumes w j s f es _ rel back c d l a (dry g x) h = cc
  resumes w j s f es _ rel back c d l a (lost g bytes x) h = absurd (not_failed f g h)
  resumes w j s f es _ rel back c d l a (stored strat since g bytes depth m pl em x p u) h =
      let same : f ≡ g = (told (codes "ok") f (codes "ok") g h).1 in
      let t : State = create_latest_symlink tools sorter st br io w j g (upload g bytes s).1 in
      let base : sidecar_base st io (write_sidecar tools sorter st br io j g m t) g
          ≡ base_file tools sorter st br io w j strat s =
        read_back j g m t rel (back m) c ∙ ap (λ (x : Meta). x.sidecar.base) em in
      subst (λ k. Resumes w j s k (write_sidecar tools sorter st br io j g m t)) (sym same)
        (
          strat,
          depth,
          since,
          pl,
          next_base-plain g _ _ (base_file-IsPlain w j strat s) base,
          has_base w j s strat since depth es l a pl,
        )

-- On a storage that does not fail and whose files are dated after 1969, a run with a checksum that is
-- not dry and tells its hook of success leaves a backup that a restore continues at the base that the
-- run has found; unless the strategy was full or differential there is one.
pub run_one-Resumes :
    (tools : Tools) (sorter : SortSlice) (st : Storage) (br : Broken st) (io : Readers) (w : World)
    (j : Job) (s : st.State) (f : Bytes) (es : List Entry)
    → IsReliable st
    → ReadsBack tools sorter st br io
    → has_checksum j.checksum ≡ true
    → w.dry_run ≡ false
    → st.list [] s ≡ some es
    → AreDated es
    → In (post (codes "ok") f) (run_one tools sorter st br io w j s).1
    → Resumes tools sorter st br io w j s f (run_one tools sorter st br io w j s).2
run_one-Resumes tools sorter st br io w j s f es rel back c d l a h =
    resumes tools sorter st br io w j s f es _ rel back c d l a
      (run_one-Ending tools sorter st br io w j s) h
