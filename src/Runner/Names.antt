-- ===== src/Runner/Names.antt =====
-- The name of a backup: `expandFilename` of src/internal/scheduler/runner/filename.go, and
-- `FormatExtension` and `UniqueBackupName` of src/internal/database/common/filename.go. The test of
-- `ParseBackupFilename`, the formatting of times and Go's `strings.NewReplacer` are arguments.
use native.Mathlib.Decide.{dec_lt}
use db_backup.Base.{
  ℕ, zero, suc, ◌+◌, ◌≤◌, ◌<◌, ◌≡◌, refl, Bool, true, false, not, ◌&&◌, List, [], ◌∷◌, ◌++◌, Option,
  none, some, Bytes, codes, bytes_eq, if◌then◌else◌, mem, arith, ◌⊎◌, inl, inr, if-intro, subst,
}
use db_backup.Text.{to_lower, cut}
use db_backup.Clock.{decimal}
use db_backup.Runner.Chain.{join_non_empty}

unfoldable pub format_extension : Bytes → Bytes
unfolding to_lower mem
format_extension db_type =
    if mem (to_lower db_type) (codes "couch" ∷ codes "couchdb" ∷ [])
    then codes ".couch"
    else if bytes_eq (to_lower db_type) (codes "influx")
    then codes ".influx"
    else if mem (to_lower db_type) (codes "mongo" ∷ codes "mongodb" ∷ [])
    then codes ".mongo"
    else if bytes_eq (to_lower db_type) (codes "redis")
    then codes ".redis"
    else codes ".sql"

abbrev pub short_strategy : Bytes → Bytes
short_strategy strat =
    if bytes_eq (to_lower strat) (codes "incremental")
    then codes "incr"
    else if bytes_eq (to_lower strat) (codes "differential")
    then codes "diff"
    else strat

-- The values that a template may name.
pub record Tokens : Type 0 where
  pub db : Bytes
  pub host : Bytes
  pub timestamp : Bytes
  pub others : List (Bytes × Bytes)

unfoldable pub expand_filename :
    (List (Bytes × Bytes) → Bytes → Bytes) → Bytes → Bytes → Tokens → Bytes → Bytes
unfolding join_non_empty
expand_filename replacer template db_type t strat =
    if bytes_eq template []
    then join_non_empty (codes "-")
        (db_type ∷ t.db ∷ t.host ∷ short_strategy strat ∷ t.timestamp ∷ [])
    else replacer ((codes "%strategy%", short_strategy strat) ∷ t.others) template

-- The name with a number, where a stem stands before the first dot.
abbrev pub numbered : Bytes → ℕ → Option (Bytes × Bytes) → Bytes
numbered name n none = name
numbered name n (some ([], after)) = name
numbered name n (some (b ∷ before, after)) =
    (b ∷ before) ++ codes "-" ++ decimal n ++ codes "." ++ after

unfoldable pub candidate : Bytes → ℕ → Bytes
unfolding cut
candidate name n = numbered name n (cut name b'.')

module _ (parses taken : Bytes → Bool) where
  -- The loop over the numbers, as many as there are left below 1000.
  unfoldable pub unique_loop : Bytes → ℕ → ℕ → Bytes
  unfolding candidate
  unique_loop name zero n = name
  unique_loop name (suc left) n =
      let rest = unique_loop name left (suc n) in
      if parses (candidate name n) && not (taken (candidate name n)) then candidate name n else rest

  unfoldable pub unique_backup_name : Bytes → Bytes
  unfolding unique_loop
  unique_backup_name name = if not (taken name) then name else unique_loop name 998 2

  -- The candidate with this number may not be used.
  abbrev pub IsUnusable : Bytes → ℕ → Type 0
  IsUnusable name n = (parses (candidate name n) ≡ false) ⊎ (taken (candidate name n) ≡ true)

  -- The name is free, or it is the one asked for and there is no other.
  abbrev pub IsFreeOrOnly : Bytes → ℕ → ℕ → Bytes → Type 0
  IsFreeOrOnly name left n result =
      (taken result ≡ false)
      ⊎ ((result ≡ name) × ((i : ℕ) → n ≤ i → i < n + left → IsUnusable name i))

  unusable :
      (name : Bytes) (n : ℕ)
      → (parses (candidate name n) && not (taken (candidate name n))) ≡ false
      → IsUnusable name n
  unusable name n h = split_test (parses (candidate name n)) (taken (candidate name n)) h
    where
      split_test : (a b : Bool) → (a && not b) ≡ false → (a ≡ false) ⊎ (b ≡ true)
      split_test false b h = inl refl
      split_test true true h = inr refl
      split_test true false h = cc

  usable :
      (name : Bytes) (n : ℕ)
      → (parses (candidate name n) && not (taken (candidate name n))) ≡ true
      → taken (candidate name n) ≡ false
  usable name n h = ground (arith, h)

  unique_loop-IsFreeOrOnly :
      (name : Bytes) (left n : ℕ) → IsFreeOrOnly name left n (unique_loop name left n)
  unfolding unique_loop
  unique_loop-IsFreeOrOnly name zero n = inr (refl, λ i l h. absurd (omega (arith, l, h)))
  unique_loop-IsFreeOrOnly name (suc left) n =
      if-intro (IsFreeOrOnly name (suc left) n)
        (parses (candidate name n) && not (taken (candidate name n))) (λ y. inl (usable name n y))
        (λ no_use. extend no_use (unique_loop-IsFreeOrOnly name left (suc n)))
    where
      extend :
          (parses (candidate name n) && not (taken (candidate name n))) ≡ false
          → IsFreeOrOnly name left (suc n) (unique_loop name left (suc n))
          → IsFreeOrOnly name (suc left) n (unique_loop name left (suc n))
      extend no_use (inl free) = inl free
      extend no_use (inr (e, all)) = inr (
        e,
        λ i l h. elim (dec_lt n i) [
          | yes m ↦ all i (omega (arith, m)) (omega (arith, h))
          | no m ↦ subst (IsUnusable name) (omega (arith, l, m)) (unusable name n no_use)
        ],
      )

  -- `UniqueBackupName` gives a name that is not taken, or the one that it was asked for when the
  -- parser refuses or another file has each of the names with a number from 2 to 999.
  pub unique_backup_name_free :
      (name : Bytes)
      → (taken (unique_backup_name name) ≡ false)
        ⊎ ((unique_backup_name name ≡ name) × ((i : ℕ) → 2 ≤ i → i < 1000 → IsUnusable name i))
  unfolding unique_backup_name
  unique_backup_name_free name =
      if-intro (IsFreeOrOnly name 998 2) (not (taken name)) (λ y. inl (ground (arith, y)))
        (λ n. unique_loop-IsFreeOrOnly name 998 2)
