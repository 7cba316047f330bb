-- ===== src/Stats/Tracker.antt =====
-- The tracker of the last 24 hours: src/internal/stats/tracker.go, and `JobOutcome` and `toKB` of
-- report.go and journal.go. The clock is an argument, in hours since 1970. A map is a list of its entries,
-- in the order in which Go happens to walk through it; locks and nil trackers are dropped. Counters are
-- natural numbers: sums of counts, durations and sizes that do not reach 2^63.
use db_backup.Base.{
  ℕ, ◌+◌, ◌/◌, Bool, not, ◌||◌, List, [], ◌∷◌, Option, none, some, Bytes, codes, bytes_eq, ◌==◌,
  ltb, if◌then◌else◌, map, keep_if,
}
use db_backup.Text.{bytes_lt}
use db_backup.SortSlice.{SortSlice}

-- Writing an entry of a map: `f` gets the value that stands there.
module _ {K V : Type 0} (eq : K → K → Bool) where
  unfoldable pub alter : K → (Option V → V) → List (K × V) → List (K × V)
  alter k f [] = (k, f none) ∷ []
  alter k f ((j, v) ∷ m) =
      let rest = alter k f m in if eq j k then (j, f (some v)) ∷ m else (j, v) ∷ rest

  unfoldable pub look_up : K → List (K × V) → Option V
  look_up k [] = none
  look_up k ((j, v) ∷ m) = let rest = look_up k m in if eq j k then some v else rest

abbrev pub same_hour : ℕ → ℕ → Bool
same_hour a b = a == b

-- The entries of a map that may be missing.
abbrev pub entries : {A : Type 0} → Option (List A) → List A
entries none = []
entries (some m) = m

abbrev pub or_zero : Option ℕ → ℕ
or_zero none = 0
or_zero (some n) = n

pub record Counts : Type 0 where
  pub success : ℕ
  pub failed : ℕ
  pub duration : ℕ
  pub bytes : ℕ
  pub raw_bytes : ℕ

abbrev pub no_counts : Counts
no_counts = record { success = 0; failed = 0; duration = 0; bytes = 0; raw_bytes = 0 }

abbrev pub Buckets : Type 0
Buckets = List (ℕ × Counts)

abbrev pub Ops : Type 0
Ops = List (Bytes × ℕ)

pub record Tracker : Type 0 where
  pub by_ts : List (Bytes × Buckets)
  pub activity : List (Bytes × List (ℕ × Ops))
  pub servers : List (Bytes × Ops)

unfoldable pub add_run : Bool → ℕ → ℕ → ℕ → Counts → Counts
add_run ok duration bytes raw_bytes c = record {
  success = if ok then c.success + 1 else c.success;
  failed = if ok then c.failed else c.failed + 1;
  duration = c.duration + duration;
  bytes = c.bytes + bytes;
  raw_bytes = c.raw_bytes + raw_bytes;
}

abbrev pub counts_or_none : Option Counts → Counts
counts_or_none none = no_counts
counts_or_none (some c) = c

-- `Mark` in a given hour.
unfoldable pub mark : Bytes → Bool → ℕ → ℕ → ℕ → ℕ → Tracker → Tracker
unfolding alter add_run
mark db_type ok duration bytes raw_bytes now t = record t {
  by_ts =
      alter bytes_eq db_type
        (λ buckets.
          alter same_hour now (λ c. add_run ok duration bytes raw_bytes (counts_or_none c))
            (entries buckets))
        t.by_ts;
}

unfoldable pub note_server : Bytes → Bytes → ℕ → Tracker → Tracker
unfolding alter
note_server db_type token now t = if bytes_eq token [] then t else record t {
  servers = alter bytes_eq db_type (λ m. alter bytes_eq token (λ h. now) (entries m)) t.servers;
}

-- `RecordActivity`; the amount is not negative.
unfoldable pub record_activity : Bytes → Bytes → ℕ → ℕ → Tracker → Tracker
unfolding alter
record_activity db_type op n now t = if n == 0 then t else record t {
  activity =
      alter bytes_eq db_type
        (λ hours.
          alter same_hour now (λ ops. alter bytes_eq op (λ k. or_zero k + n) (entries ops))
            (entries hours))
        t.activity;
}

pub record JobOutcome : Type 0 where
  pub type : Bytes
  pub success : ℕ
  pub failed : ℕ
  pub duration : ℕ
  pub pruned : ℕ
  pub archived : ℕ
  pub kb : ℕ
  pub raw_kb : ℕ
  pub servers : List Bytes

unfoldable pub to_kb : ℕ → ℕ
to_kb n = (n + 512) / 1024

-- `hour < minHour`
abbrev pub is_old : ℕ → ℕ → Bool
is_old now h = ltb (h + 24) now

-- The sums over the buckets that are not too old.
unfoldable pub sum_counts : ℕ → Buckets → Counts
sum_counts now [] = no_counts
sum_counts now ((h, c) ∷ m) =
    let rest = sum_counts now m in
    if is_old now h then rest else record {
      success = c.success + rest.success;
      failed = c.failed + rest.failed;
      duration = c.duration + rest.duration;
      bytes = c.bytes + rest.bytes;
      raw_bytes = c.raw_bytes + rest.raw_bytes;
    }

abbrev recent_tokens : ℕ → Ops → List Bytes
recent_tokens now [] = []
recent_tokens now ((tok, h) ∷ m) =
    let rest = recent_tokens now m in if is_old now h then rest else tok ∷ rest

unfoldable pub sum_ops : ℕ → Bytes → List (ℕ × Ops) → ℕ
unfolding look_up
sum_ops now op [] = 0
sum_ops now op ((h, ops) ∷ m) =
    let rest = sum_ops now op m in
    if is_old now h then rest else or_zero (look_up bytes_eq op ops) + rest

-- `out[i].Pruned = …` at the first outcome of the type, or a new outcome at the end.
unfoldable pub set_activity : JobOutcome → List JobOutcome → List JobOutcome
set_activity o [] = o ∷ []
set_activity o (p ∷ out) =
    let rest = set_activity o out in
    if bytes_eq p.type o.type
    then record p { pruned = o.pruned; archived = o.archived } ∷ out
    else p ∷ rest

module _ (sorter : SortSlice) (now : ℕ) where
  unfoldable pub outcome_of : Tracker → Bytes → Buckets → JobOutcome
  unfolding sum_counts look_up to_kb
  outcome_of t db_type buckets =
      let c = sum_counts now buckets in
      record {
        type = db_type;
        success = c.success;
        failed = c.failed;
        duration = c.duration;
        pruned = 0;
        archived = 0;
        kb = to_kb c.bytes;
        raw_kb = to_kb c.raw_bytes;
        servers =
            sorter.sort Bytes bytes_lt
              (recent_tokens now (entries (look_up bytes_eq db_type t.servers)));
      }

  -- The first loop.
  unfoldable pub run_outcomes : Tracker → List (Bytes × Buckets) → List JobOutcome
  unfolding outcome_of
  run_outcomes t [] = []
  run_outcomes t ((db_type, buckets) ∷ m) =
      let rest = run_outcomes t m in
      let o = outcome_of t db_type buckets in
      if ltb 0 o.success || ltb 0 o.failed then o ∷ rest else rest

  -- The second loop.
  unfoldable pub activity_outcomes :
      List (Bytes × List (ℕ × Ops)) → List JobOutcome → List JobOutcome
  unfolding sum_ops set_activity
  activity_outcomes [] out = out
  activity_outcomes ((db_type, hours) ∷ m) out =
      let pruned = sum_ops now (codes "prune") hours in
      let archived = sum_ops now (codes "archive") hours in
      activity_outcomes m (
        if ltb 0 pruned || ltb 0 archived
        then set_activity
            (record {
              type = db_type;
              success = 0;
              failed = 0;
              duration = 0;
              pruned = pruned;
              archived = archived;
              kb = 0;
              raw_kb = 0;
              servers = [];
            })
            out
        else out)

  -- What stays behind of the entries by hour.
  abbrev kept : {V : Type 0} → List (ℕ × V) → List (ℕ × V)
  kept m = keep_if (λ e. not (is_old now e.0)) m

  abbrev kept_tokens : Ops → Ops
  kept_tokens m = keep_if (λ e. not (is_old now e.1)) m

  -- `Snapshot`: the outcomes, and the tracker without what is too old. The servers of a type are
  -- looked through only where the type has runs.
  unfoldable pub snapshot : Tracker → List JobOutcome × Tracker
  unfolding run_outcomes activity_outcomes look_up
  snapshot t = (
    activity_outcomes t.activity (run_outcomes t t.by_ts),
    record {
      by_ts = map (λ (e : Bytes × Buckets). (e.0, kept e.1)) t.by_ts;
      activity = map (λ (e : Bytes × List (ℕ × Ops)). (e.0, kept e.1)) t.activity;
      servers =
          map
            (λ (e : Bytes × Ops). elim (look_up bytes_eq e.0 t.by_ts) [
              | none ↦ e
              | some b ↦ (e.0, kept_tokens e.1)
            ])
            t.servers;
    },
  )
