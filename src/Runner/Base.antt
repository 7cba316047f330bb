-- ===== src/Runner/Base.antt =====
-- The plan of `Run` in src/internal/scheduler/runner/runner.go, and the base that it records.
use db_backup.Base.{
  ℕ, ◌≡◌, ◌≢◌, refl, subst, Bool, true, false, ◌&&◌, List, [], ◌∷◌, ◌++◌, Option, none, some, Bytes,
  codes, bytes_eq, if-intro, In, In-keep_if, All, ◌⊎◌, inl, inr, Bool-cases, and_split, keep_if, ℤ,
  pos, leb_ℤ, eqb_ℤ,
}
use db_backup.Text.{has_prefix}
use db_backup.SortSlice.{SortSlice, Permᴰ-In}
use db_backup.Storage.Interface.{Entry, Storage}
use db_backup.Retention.Listing.{Readers}
use db_backup.Runner.Chain.{
  BackupChain, BackupConfig, backup_prefix, join_non_empty, is_candidate, latest_scan, newer,
  chain_scan, chain_info, find_last_chain_parent, should_reset_chain, no_reset, no_base, too_deep,
  too_old, Reset, position_anchored, find_last_position,
}
use db_backup.Runner.Run.{Tools, Broken, base_file}
use db_backup.Runner.Strategy.{
  Job, World, Plan, go, refuse, panic, supported_strategy, configured_strategy, db_name, is_full,
  job_prefix, plan_run, plan_strategy, plan_anchor,
}

-- No modification time lies before 1970.
abbrev pub AreDated : List Entry → Type 0
AreDated es = All (λ (e : Entry). leb_ℤ (pos 0) e.mod_time ≡ true) es

module _ (wanted : Entry → Bool) (named : (e : Entry) → wanted e ≡ true → e.path ≢ []) where
  latest_scan-ne-nil :
      (es : List Entry) (latest : Bytes) (ts : ℤ)
      → latest ≢ []
      → latest_scan wanted es latest ts ≢ []
  unfolding latest_scan
  latest_scan-ne-nil [] latest ts n = n
  latest_scan-ne-nil (e ∷ es) latest ts n = latest_scan-ne-nil es _ _ (
      if-intro (λ l. l ≢ []) (wanted e && leb_ℤ ts e.mod_time)
        (λ y. named e (and_split (wanted e) _ y).0) (λ x. n))

  -- The first entry that is wanted is taken.
  latest_scan-finds :
      (es : List Entry) {e : Entry}
      → AreDated es
      → In e es
      → wanted e ≡ true
      → latest_scan wanted es [] (pos 0) ≢ []
  unfolding latest_scan
  latest_scan-finds [] d i w = absurd i
  latest_scan-finds (x ∷ es) (d, ds) i w = elim (Bool-cases (wanted x)) [
    | inl y ↦ rw (y, d) (latest_scan-ne-nil es x.path x.mod_time (named x y))
    | inr n ↦ rw n (elim i [ inl e ↦ cc | inr l ↦ latest_scan-finds es ds l w ])
  ]

prefix_ne_nil : (p path : Bytes) (c : ℕ) → has_prefix path (p ++ c ∷ []) ≡ true → path ≢ []
unfolding has_prefix
prefix_ne_nil [] [] c h e = cc
prefix_ne_nil (b ∷ p) [] c h e = cc
prefix_ne_nil p (b ∷ path) c h e = cc

is_candidate-named :
    (t db host : Bytes) (e : Entry) → is_candidate (backup_prefix t db host) e ≡ true → e.path ≢ []
unfolding backup_prefix
is_candidate-named t db host e h =
    prefix_ne_nil (join_non_empty (codes "-") (t ∷ db ∷ host ∷ [])) e.path b'-'
      (and_split (has_prefix e.path (backup_prefix t db host)) _ h).0

not_reset :
    (parse_duration : Bytes → Option ℤ) (now : ℤ) (cfg : Option BackupConfig) (c : BackupChain)
    → should_reset_chain parse_duration now cfg c ≡ no_reset
    → c.last_full ≢ pos 0
unfolding should_reset_chain
not_reset parse_duration now cfg c h e = cc (h, first_test c.last_full e)
  where
    first_test : (l : ℤ) → l ≡ pos 0 → eqb_ℤ l (pos 0) ≡ true
    first_test l e = rw e refl

module _ (sorter : SortSlice) (st : Storage) (io : Readers) where
  open st use {State, list}

  chain_scan-some :
      (s : State) (depth : ℕ) (es : List Entry)
      → (chain_scan sorter st io s depth es).last_full ≢ pos 0
      → (e : Entry) × In e es
  unfolding chain_scan
  chain_scan-some s depth [] h = absurd (h refl)
  chain_scan-some s depth (e ∷ es) h = (e, inl refl)

  parent_found :
      (t db host : Bytes) (s : State) (es : List Entry)
      → list [] s ≡ some es
      → AreDated es
      → (chain_info sorter st io (backup_prefix t db host) s).last_full ≢ pos 0
      → find_last_chain_parent sorter st io (backup_prefix t db host) s ≢ []
  unfolding chain_info find_last_chain_parent
  parent_found t db host s es l d h =
      let prefix : Bytes = backup_prefix t db host in
      let all : List Entry = keep_if (is_candidate prefix) es in
      let (e, i) = chain_scan-some s 0 (sorter.sort Entry newer all) (rw (l, chain_info) at h) in
      let (j, w) =
        In-keep_if (is_candidate prefix) es e (Permᴰ-In e (sorter.perm Entry newer all) i) in
      rw (l, find_last_chain_parent)
        (latest_scan-finds (is_candidate prefix) (is_candidate-named t db host) es d j w)

  -- A plan that is not full extends a chain.
  abbrev Extends : World → Job → State → Plan → Type 0
  Extends w j s (go strat depth since) =
      (is_full strat ≡ true)
      ⊎ ((w.dry_run ≡ false) × ((chain_info sorter st io (job_prefix w j) s).last_full ≢ pos 0))
  Extends w j s refuse = Unit
  Extends w j s panic = Unit

  anchor-Extends :
      (w : World) (j : Job) (strat : Bytes) (depth : ℕ) (s : State)
      → w.dry_run ≡ false
      → (chain_info sorter st io (job_prefix w j) s).last_full ≢ pos 0
      → Extends w j s (plan_anchor sorter st io w j (job_prefix w j) strat depth s)
  unfolding bytes_eq
  anchor-Extends w j strat depth s d h =
      if-intro (Extends w j s) (position_anchored j.db_type)
        (λ y. by_position (find_last_position sorter st io (job_prefix w j) strat s))
        (λ n. inr (d, h))
    where
      by_position :
          (p : Bytes)
          → Extends w j s
              (elim p [ [] ↦ go (codes "full") depth [] | c ∷ since ↦ go strat depth (c ∷ since) ])
      by_position [] = inl refl
      by_position (c ∷ p) = inr (d, h)

  chain-Extends :
      (w : World) (j : Job) (strat : Bytes) (s : State) (r : Reset)
      → w.dry_run ≡ false
      → should_reset_chain w.parse_duration w.now
          (some j.limits)
          (chain_info sorter st io (job_prefix w j) s)
        ≡ r
      → Extends w j s (elim r [
        | no_reset ↦
            plan_anchor sorter st io w j
              (job_prefix w j)
              strat
              (chain_info sorter st io (job_prefix w j) s).depth
              s
        | no_base ↦ go (codes "full") (chain_info sorter st io (job_prefix w j) s).depth []
        | too_deep ↦ go (codes "full") (chain_info sorter st io (job_prefix w j) s).depth []
        | too_old ↦ go (codes "full") (chain_info sorter st io (job_prefix w j) s).depth []
      ])
  unfolding bytes_eq
  chain-Extends w j strat s no_reset d e =
      anchor-Extends w j strat (chain_info sorter st io (job_prefix w j) s).depth s d
        (not_reset w.parse_duration w.now (some j.limits) _ e)
  chain-Extends w j strat s no_base d e = inl refl
  chain-Extends w j strat s too_deep d e = inl refl
  chain-Extends w j strat s too_old d e = inl refl

  plan_strategy-Extends :
      (w : World) (j : Job) (strat : Bytes) (s : State)
      → Extends w j s (plan_strategy sorter st io w j (job_prefix w j) strat s)
  plan_strategy-Extends w j strat s =
      if-intro (Extends w j s) (is_full strat) (λ y. inl y)
        (λ n.
          if-intro (Extends w j s) w.dry_run (λ y. tt) (λ d. chain-Extends w j strat s _ d refl))

  plan_run-Extends : (w : World) (j : Job) (s : State) → Extends w j s (plan_run sorter st io w j s)
  unfolding plan_run
  plan_run-Extends w j s = supported_case (supported_strategy w (db_name j) (configured_strategy j))
    where
      supported_case :
          (o : Option Bytes)
          → Extends w j s (elim o [
            | none ↦ refuse
            | some strat ↦ plan_strategy sorter st io w j (job_prefix w j) strat s
          ])
      supported_case none = tt
      supported_case (some strat) = plan_strategy-Extends w j strat s

-- Where a run takes a strategy other than full and differential, which extends the last backup, and
-- no file of the storage is dated before 1970, it records a base.
pub base_file-ne-nil :
    (tools : Tools) (sorter : SortSlice) (st : Storage) (br : Broken st) (io : Readers) (w : World)
    (j : Job) (s : st.State) (strat since : Bytes) (depth : ℕ) (es : List Entry)
    → st.list [] s ≡ some es
    → AreDated es
    → plan_run sorter st io w j s ≡ go strat depth since
    → bytes_eq strat (codes "full") ≡ false
    → bytes_eq strat (codes "differential") ≡ false
    → base_file tools sorter st br io w j strat s ≢ []
unfolding base_file
base_file-ne-nil tools sorter st br io w j s strat since depth es l d p f g =
    elim (subst (Extends sorter st io w j s) p (plan_run-Extends sorter st io w j s)) [
      | inl y ↦ cc
      | inr (n, h) ↦
          rw (n, f, g) (parent_found sorter st io j.db_type w.tokens.db w.tokens.host s es l d h)
    ]
