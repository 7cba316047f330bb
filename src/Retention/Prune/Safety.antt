-- ===== src/Retention/Prune/Safety.antt =====
-- What a prune step may do to the storage, from the listing to the deletions.
use db_backup.Base.{
  ℕ, ◌+◌, ◌<◌, ◌≡◌, refl, sym, ap, ◌∙◌, subst, Bool, true, false, List, [], ◌∷◌, Option, some,
  Bytes, codes, arith, pos_part, Bool-cases, Option-cases, inl, inr, ◌⊎◌, In,
}
use db_backup.Text.{has_suffix}
use db_backup.Clock.{Time, is_zero}
use db_backup.SortSlice.{SortSlice}
use db_backup.Storage.Interface.{Entry, Storage}
use db_backup.Retention.Policy.{
  BackupEntry, RetentionPolicy, is_positive, is_valid, check_prune, strip_tiers,
}
use db_backup.Retention.Chain.Closure.{Needed}
use db_backup.Retention.Tiers.Scan.{Build}
use db_backup.Retention.Apply.Defs.{apply_retention_at}
use db_backup.Retention.Apply.Fate.{HasUniqueNames}
use db_backup.Retention.Apply.Deleted.{apply_retention_at-keeps_Needed, apply_retention_at-entry}
use db_backup.Retention.Listing.{
  Readers, Sidecar, zero_time, describe_entry, collect_backups, collect_sidecars,
  list_backups_with_sidecars,
}
use db_backup.Retention.Prune.Delete.{delete_backups, targets}
use db_backup.Retention.Prune.Settled.{delete_backups_lem}
use db_backup.Retention.Prune.Step.{
  RetentionConfig, retention_policy, prune_policy, prune_listed, apply_prune, finish, report,
}

module _ (st : Storage) (io : Readers) where
  open io use {is_backup_file}

  -- Where a listed backup comes from.
  abbrev pub ListedFrom : List (Bytes × Sidecar) → List Entry → BackupEntry → Type 0
  ListedFrom sidecars es b =
      (e : Entry) × In e es
      × (b ≡ describe_entry st io sidecars e)
      × (has_suffix e.path (codes ".json") ≡ false)
      × (is_backup_file e.path ≡ true)

  ListedFrom-cons :
      (sidecars : List (Bytes × Sidecar)) (e : Entry) (es : List Entry) (b : BackupEntry)
      → ListedFrom sidecars es b
      → ListedFrom sidecars (e ∷ es) b
  ListedFrom-cons sidecars e es b (x, k, same, plain, is) = (x, inr k, same, plain, is)

  collect_backups-ListedFrom :
      (sidecars : List (Bytes × Sidecar)) (es : List Entry) (b : BackupEntry)
      → In b (collect_backups st io sidecars es)
      → ListedFrom sidecars es b
  unfolding collect_backups
  collect_backups-ListedFrom sidecars [] b i = elim i [ ]
  collect_backups-ListedFrom sidecars (e ∷ es) b i =
      elim (Bool-cases (has_suffix e.path (codes ".json"))) [
        | inl sidecar ↦
            ListedFrom-cons sidecars e es b
              (collect_backups-ListedFrom sidecars es b (rw (sidecar, collect_backups) at i))
        | inr plain ↦ elim (Bool-cases (is_backup_file e.path)) [
          | inl is ↦
              let j : (b ≡ describe_entry st io sidecars e)
                  ⊎ In b (collect_backups st io sidecars es) =
                rw (plain, is, collect_backups) at i in
              elim j [
                | inl same ↦ (e, inl refl, same, plain, is)
                | inr k ↦
                    ListedFrom-cons sidecars e es b (collect_backups-ListedFrom sidecars es b k)
              ]
          | inr not_one ↦
              ListedFrom-cons sidecars e es b (
                collect_backups-ListedFrom sidecars es b
                  (rw (plain, not_one, collect_backups) at i))
        ]
      ]

  -- A storage that lists no path twice gives a listing with unique names.
  pub collect_backups-HasUniqueNames :
      (sidecars : List (Bytes × Sidecar)) (es : List Entry)
      → ((d e : Entry) → In d es → In e es → d.path ≡ e.path → d ≡ e)
      → HasUniqueNames (collect_backups st io sidecars es)
  unfolding describe_entry
  collect_backups-HasUniqueNames sidecars es u a b i j names =
      let (d, id, sa, _, _) = collect_backups-ListedFrom sidecars es a i in
      let (e, ie, sb, _, _) = collect_backups-ListedFrom sidecars es b j in
      let paths : d.path ≡ e.path =
        sym (ap (λ (x : BackupEntry). x.file_name) sa)
        ∙ (names ∙ ap (λ (x : BackupEntry). x.file_name) sb) in
      sa ∙ (ap (describe_entry st io sidecars) (u d e id ie paths) ∙ sym sb)

abbrev HasRule : Bool → RetentionPolicy → Type 0
HasRule allowed q =
    (is_valid q ≡ true)
    × ((allowed ≡ true) ⊎ (is_positive q.last ≡ true) ⊎ (is_positive q.within ≡ true))

whole-HasRule :
    (allowed : Bool) (p : RetentionPolicy)
    → is_valid p ≡ true
    → check_prune allowed p ≡ true
    → HasRule allowed p
unfolding is_valid check_prune
whole-HasRule allowed p v c = (v, ground arith)

stripped-HasRule :
    (allowed : Bool) (p : RetentionPolicy)
    → is_valid (strip_tiers p) ≡ true
    → HasRule allowed (strip_tiers p)
unfolding is_valid strip_tiers
stripped-HasRule allowed p v = (v, ground arith)

-- Whatever the licence says, the step goes on only with a policy that has a rule; without the licence
-- that rule is `last` or `within`.
pub prune_policy_has_rule :
    (allowed : Bool) (p q : RetentionPolicy)
    → prune_policy allowed p ≡ some q
    → (is_valid q ≡ true)
      × ((allowed ≡ true) ⊎ (is_positive q.last ≡ true) ⊎ (is_positive q.within ≡ true))
unfolding prune_policy
prune_policy_has_rule allowed p q e = elim (Bool-cases (is_valid p)) [
  | inr v ↦ cc (rw (v, prune_policy) at e)
  | inl v ↦ elim (Bool-cases (check_prune allowed p)) [
    | inl c ↦
        let e' : some p ≡ some q = rw (v, c, prune_policy) at e in
        let same : p ≡ q = cc in subst (HasRule allowed) same (whole-HasRule allowed p v c)
    | inr c ↦ elim (Bool-cases (is_valid (strip_tiers p))) [
      | inr w ↦ cc (rw (v, c, w, prune_policy) at e)
      | inl w ↦
          let e' : some (strip_tiers p) ≡ some q = rw (v, c, w, prune_policy) at e in
          let same : strip_tiers p ≡ q = cc in
          subst (HasRule allowed) same (stripped-HasRule allowed p w)
    ]
  ]
]

module _ (sorter : SortSlice) (build : Build) (allowed : Bool) (clock : Time) (st : Storage)
    (io : Readers) where
  open st use {State, content}

  -- Why a path may be changed: it belongs to the file of a listed backup that no rule protects.
  abbrev pub Licit : List BackupEntry → RetentionPolicy → Bytes → Type 0
  Licit backups p q =
      (b : BackupEntry) × In b backups
      × In q (targets st b.file_name)
      × (¬ Needed backups b.file_name)
      × ((is_positive p.within ≡ false)
          ⊎ (is_zero b.timestamp ≡ true)
          ⊎ (b.timestamp.instant + pos_part p.within < clock.instant))

  report_state :
      (n : ℕ) (errs : List Bytes) (s : State)
      → (report sorter build allowed clock st io n errs s).1 ≡ s
  unfolding report
  report_state n [] s = refl
  report_state n (e ∷ es) s = refl

  finish_frame :
      (out : List Bytes) (s : State) (q : Bytes)
      → (content (finish sorter build allowed clock st io out s).1 q ≡ content s q)
        ⊎ ((f : Bytes) × In f out × In q (targets st f))
  unfolding finish
  finish_frame [] s q = inl refl
  finish_frame (f ∷ fs) s q = elim (delete_backups_lem st (f ∷ fs) s q) [
    | inl (g, i, t, _) ↦ inr (g, i, t)
    | inr (_, same) ↦
        inl (ap (λ t. content t q) (report_state _ (delete_backups st (f ∷ fs) s).0 _) ∙ same)
  ]

  prune_listed-Licit :
      (backups : List BackupEntry) (p : RetentionPolicy) (s : State) (q : Bytes)
      → HasUniqueNames backups
      → (content (prune_listed sorter build allowed clock st io backups p s).1 q ≡ content s q)
        ⊎ Licit backups p q
  unfolding prune_listed
  prune_listed-Licit backups p s q u =
      elim (Option-cases (apply_retention_at sorter build allowed clock backups p zero_time)) [
        | inl none_left ↦ inl (rw (none_left, prune_listed))
        | inr (out, e) ↦ elim (finish_frame out s q) [
          | inl same ↦ inl (rw (e, prune_listed) same)
          | inr (f, i, t) ↦ inr (licit out e f i t)
        ]
      ]
    where
      licit :
          (out : List Bytes)
          → apply_retention_at sorter build allowed clock backups p zero_time ≡ some out
          → (f : Bytes) → In f out
          → In q (targets st f)
          → Licit backups p q
      licit out e f i t =
          let (b, j, name, young) =
            apply_retention_at-entry sorter build allowed clock backups p zero_time out e f i in
          (
            b,
            j,
            rw name t,
            λ need.
                apply_retention_at-keeps_Needed sorter build allowed clock backups p zero_time out e
                  u f (rw name at need) i,
            elim (Bool-cases (is_positive p.within)) [ inl w ↦ inr (young w) | inr w ↦ inl w ],
          )

-- Where a prune step on a storage that lists no path twice changes what a path holds, the job's
-- configuration gives a policy to prune by; that policy has a rule, and without the licence for tiers
-- one of its rules is `last` or `within`; and the path belongs to a listed backup that is out of the
-- window of that policy, if there is one, and that no incremental or differential backup needs.
pub apply_prune-Licit :
    (sorter : SortSlice) (build : Build) (allowed : Bool) (clock : Time) (st : Storage)
    (io : Readers) (opened : Bool) (ret : Option RetentionConfig) (s : Storage.State st)
    (entries : List Entry)
    → st.list [] s ≡ some entries
    → ((d e : Entry) → In d entries → In e entries → d.path ≡ e.path → d ≡ e)
    → (q : Bytes)
    → (st.content (apply_prune sorter build allowed clock st io opened ret s).1 q ≡ st.content s q)
      ⊎ ((p : RetentionPolicy) × (prune_policy allowed (retention_policy build allowed ret)
            ≡ some p)
          × (is_valid p ≡ true)
          × ((allowed ≡ true) ⊎ (is_positive p.last ≡ true) ⊎ (is_positive p.within ≡ true))
          × Licit sorter build allowed clock st io
              (collect_backups st io (collect_sidecars st io s entries []) entries)
              p
              q)
unfolding apply_prune list_backups_with_sidecars
apply_prune-Licit sorter build allowed clock st io opened ret s entries l u q =
    elim (Option-cases (prune_policy allowed (retention_policy build allowed ret))) [
      | inl refused ↦ inl (rw (refused, apply_prune))
      | inr (p, e) ↦ elim (Bool-cases opened) [
        | inr closed ↦ inl (rw (e, closed, apply_prune))
        | inl open_now ↦
            elim (prune_listed-Licit sorter build allowed clock st io backups p s q unique) [
              | inl same ↦ inl (rw (e, open_now, l, apply_prune) same)
              | inr licit ↦
                  let (valid, rule) =
                    prune_policy_has_rule allowed (retention_policy build allowed ret) p e in
                  inr (p, e, valid, rule, licit)
            ]
      ]
    ]
  where
    backups : List BackupEntry
    backups = collect_backups st io (collect_sidecars st io s entries []) entries

    unique : HasUniqueNames backups
    unique = collect_backups-HasUniqueNames st io (collect_sidecars st io s entries []) entries u
