-- ===== src/Runner/Chain.antt =====
-- The functions of chain.go over a storage and the readers of its sidecars. `backupPrefix` takes the
-- database and host tokens as arguments. A reason for a new full backup is a constructor of `Reset`.
-- `time.ParseDuration` is an argument, and `now` is in nanoseconds since 1970.
use Prim.Native.Nat.{◌^◌}
use db_backup.Base.{
  ℕ, suc, ◌+◌, ◌-◌, ◌*◌, Bool, true, false, not, ◌&&◌, ◌||◌, List, [], ◌∷◌, ◌++◌, Option, none,
  some, Bytes, codes, bytes_eq, ℤ, pos, negsuc, sub_ℕ, if◌then◌else◌, leb_ℤ, ltb_ℤ, eqb_ℤ, ◌-ℤ◌,
  keep_if,
}
use db_backup.Text.{has_prefix, has_suffix, to_lower, join, bytes_lt}
use db_backup.SortSlice.{SortSlice}
use db_backup.Storage.Interface.{Entry, Storage}
use db_backup.Retention.Policy.{is_positive}
use db_backup.Retention.Listing.{Readers, read_sidecar, strategy_from_filename}

-- `joinNonEmpty`
unfoldable pub join_non_empty : Bytes → List Bytes → Bytes
unfolding join
join_non_empty sep parts = join (keep_if (λ p. not (bytes_eq p [])) parts) sep

unfoldable pub backup_prefix : Bytes → Bytes → Bytes → Bytes
unfolding join_non_empty
backup_prefix db_type db_tok host_tok =
    join_non_empty (codes "-") (db_type ∷ db_tok ∷ host_tok ∷ []) ++ codes "-"

-- `backupChain`
pub record BackupChain : Type 0 where
  pub depth : ℕ
  pub last_full : ℤ

abbrev pub empty_chain : BackupChain
empty_chain = record { depth = 0; last_full = pos 0 }

-- The test by which the loops over a listing choose.
abbrev pub is_candidate : Bytes → Entry → Bool
is_candidate prefix e = has_prefix e.path prefix && not (has_suffix e.path (codes ".json"))

-- The loop of `findLastChainParent` and `findLastFullBackup` over the chosen entries.
unfoldable pub latest_scan : (Entry → Bool) → List Entry → Bytes → ℤ → Bytes
latest_scan wanted [] latest ts = latest
latest_scan wanted (e ∷ es) latest ts =
    let take_it = wanted e && leb_ℤ ts e.mod_time in
    latest_scan wanted es (if take_it then e.path else latest) (if take_it then e.mod_time else ts)

abbrev pub newer : Entry → Entry → Bool
newer a b = ltb_ℤ b.mod_time a.mod_time

abbrev pub newer_or_greater : Entry → Entry → Bool
newer_or_greater a b =
    if eqb_ℤ a.mod_time b.mod_time then bytes_lt b.path a.path else ltb_ℤ b.mod_time a.mod_time

module _ (sorter : SortSlice) (st : Storage) (io : Readers) where
  open st use {State, list}

  unfoldable pub find_last_chain_parent : Bytes → State → Bytes
  unfolding latest_scan
  find_last_chain_parent prefix s = elim (list [] s) [
    | none ↦ []
    | some es ↦ latest_scan (is_candidate prefix) es [] (pos 0)
  ]

  unfoldable pub find_last_full_backup : Bytes → State → Bytes
  unfolding latest_scan
  find_last_full_backup prefix s = elim (list [] s) [
    | none ↦ []
    | some es ↦ latest_scan (is_candidate (prefix ++ codes "full-")) es [] (pos 0)
  ]

  -- The loop of `chainInfo` over the entries, newest first.
  unfoldable pub chain_scan : State → ℕ → List Entry → BackupChain
  chain_scan s depth [] = record { depth = depth; last_full = pos 0 }
  chain_scan s depth (e ∷ es) = elim (read_sidecar st io s e.path) [
    | none ↦ chain_scan s depth es
    | some sc ↦ elim (bytes_eq sc.strategy (codes "full")) [
      | true ↦ record { depth = depth; last_full = e.mod_time }
      | false ↦ chain_scan s (depth + 1) es
    ]
  ]

  unfoldable pub chain_info : Bytes → State → BackupChain
  unfolding chain_scan
  chain_info prefix s = elim (list [] s) [
    | none ↦ empty_chain
    | some es ↦ chain_scan s 0 (sorter.sort Entry newer (keep_if (is_candidate prefix) es))
  ]

  -- The entries that `findLastPosition` considers.
  abbrev pub position_candidate : Bytes → Bytes → Entry → Bool
  position_candidate prefix strategy e =
      is_candidate prefix e
      && not (
          bytes_eq strategy (codes "differential")
          && not (bytes_eq (strategy_from_filename e.path) (codes "full")))

  unfoldable pub position_scan : State → List Entry → Bytes
  position_scan s [] = []
  position_scan s (e ∷ es) = elim (read_sidecar st io s e.path) [
    | none ↦ position_scan s es
    | some sc ↦ elim (bytes_eq sc.position []) [ true ↦ position_scan s es | false ↦ sc.position ]
  ]

  unfoldable pub find_last_position : Bytes → Bytes → State → Bytes
  unfolding position_scan
  find_last_position prefix strategy s = elim (list [] s) [
    | none ↦ []
    | some es ↦
        position_scan s
          (sorter.sort Entry newer_or_greater (keep_if (position_candidate prefix strategy) es))
  ]

unfoldable pub position_anchored : Bytes → Bool
unfolding to_lower
position_anchored db_type =
    let t = to_lower db_type in
    bytes_eq t (codes "mongo")
    || bytes_eq t (codes "mongodb")
    || bytes_eq t (codes "mysql")
    || bytes_eq t (codes "mariadb")
    || bytes_eq t (codes "influx")
    || bytes_eq t (codes "influxdb")

-- The fields of `config.BackupConfig` that bound a chain.
pub record BackupConfig : Type 0 where
  pub full_every : ℤ
  pub full_after : Bytes

pub data Reset : Type 0 where
  no_reset no_base too_deep too_old : Reset

-- A number of seconds in nanoseconds.
abbrev pub seconds : ℤ → ℤ
seconds (pos n) = pos (n * 1_000_000_000)
seconds (negsuc n) = sub_ℕ 0 (suc n * 1_000_000_000)

-- The difference of two times is cut off at the ends of 64 bits.
abbrev pub saturate : ℤ → ℤ
saturate (pos n) = if leb_ℤ (pos n) (pos (2 ^ 63 - 1)) then pos n else pos (2 ^ 63 - 1)
saturate (negsuc n) =
    if leb_ℤ (negsuc (2 ^ 63 - 1)) (negsuc n) then negsuc n else negsuc (2 ^ 63 - 1)

-- `time.Since(time.Unix(sec, 0))`
unfoldable pub since_unix : ℤ → ℤ → ℤ
unfolding ◌-ℤ◌
since_unix now sec = saturate (now -ℤ seconds sec)

unfoldable pub should_reset_chain :
    (Bytes → Option ℤ) → ℤ → Option BackupConfig → BackupChain → Reset
unfolding since_unix
should_reset_chain parse_duration now cfg chain =
    if eqb_ℤ chain.last_full (pos 0) then no_base else elim cfg [
      | none ↦ no_reset
      | some c ↦
          if is_positive c.full_every && leb_ℤ c.full_every (pos chain.depth)
          then too_deep
          else if bytes_eq c.full_after []
          then no_reset
          else elim (parse_duration c.full_after) [
            | none ↦ no_reset
            | some d ↦
                if is_positive d && leb_ℤ d (since_unix now chain.last_full)
                then too_old
                else no_reset
          ]
    ]
