-- ===== src/Redis/Keys.antt =====
-- `Dump`, `dumpKey` and `xRangeAll` of src/internal/database/engine/redis/redis.go over a client that answers
-- each command, and `TableFilter.Apply` of src/internal/config/jobs.go, which selects the keys.
use db_backup.Base.{
  ℕ, zero, suc, ◌+◌, Bool, true, false, ◌&&◌, not, List, [], ◌∷◌, ◌++◌, Option, none, some, Bytes,
  codes, ◌==◌, ltb, if◌then◌else◌, length, ℤ, pos, negsuc, bytes_eq, ◌>>=◌,
}
use db_backup.SortSlice.{SortSlice}
use db_backup.Redis.Data.{
  Message, Group, Reply, string_reply, list_reply, set_reply, hash_reply, zset_reply, stream_reply,
  vanished, blob_reply, Codec,
}
use db_backup.Config.{glob_match_any}
use db_backup.Redis.Dump.{write_reply}

pub record TableFilter : Type 0 where
  pub includes : List Bytes
  pub excludes : List Bytes

unfoldable pub table_included : (Bytes → Bytes → Bool) → Option TableFilter → Bytes → Bool
unfolding glob_match_any
table_included path_match none table = true
table_included path_match (some f) table =
    if glob_match_any path_match f.excludes table
    then false
    else not (ltb 0 (length f.includes) && not (glob_match_any path_match f.includes table))

-- The client's commands; `none` is an error. A time to live is in nanoseconds.
pub record Client (Score : Type 0) : Type 0 where
  pub ttl : Bytes → Option ℤ
  pub type_of : Bytes → Option Bytes
  pub get : Bytes → Option Bytes
  pub l_range : Bytes → Option (List Bytes)
  pub s_members : Bytes → Option (List Bytes)
  pub h_get_all : Bytes → Option (List (Bytes × Bytes))
  pub z_range_with_scores : Bytes → Option (List (Score × Bytes))
  pub x_range_n : Bytes → Bytes → ℕ → Option (List Message)
  pub x_info_groups : Bytes → Option (List Group)
  pub dump : Bytes → Option Bytes

abbrev pub page_size : ℕ
page_size = 1000

-- "(" and the identifier of the page's last message.
abbrev pub next_start : Bytes → List Message → Bytes
next_start start [] = start
next_start start (m ∷ []) = b'(' ∷ m.id
next_start start (m ∷ n ∷ ms) = next_start start (n ∷ ms)

abbrev pub clamp : ℤ → ℕ
clamp (pos n) = n
clamp (negsuc n) = 0

module _ {Score : Type 0} (client : Client Score) where
  -- The loop of `xRangeAll` behind `out`, for at most so many pages.
  unfoldable pub x_range_all : ℕ → Bytes → Bytes → List Message → Option (List Message)
  x_range_all zero key start out = none
  x_range_all (suc fuel) key start out = elim (client.x_range_n key start page_size) [
    | none ↦ none
    | some [] ↦ some out
    | some (m ∷ ms) ↦ elim (ltb (length (m ∷ ms)) page_size) [
      | true ↦ some (out ++ m ∷ ms)
      | false ↦ x_range_all fuel key (next_start start (m ∷ ms)) (out ++ m ∷ ms)
    ]
  ]

  fetch_stream : ℕ → Bytes → Option (Reply Score)
  unfolding x_range_all
  fetch_stream fuel key = do
    msgs ← x_range_all fuel key (codes "-") []
    groups ← client.x_info_groups key
    some (stream_reply msgs groups)

  -- The commands of the branches of `dumpKey`.
  unfoldable pub fetch : ℕ → Bytes → Bytes → Option (Reply Score)
  unfolding fetch_stream bytes_eq
  fetch fuel key typ =
      if bytes_eq typ (codes "string")
      then (do val ← client.get key; some (string_reply val))
      else if bytes_eq typ (codes "list")
      then (do vals ← client.l_range key; some (list_reply vals))
      else if bytes_eq typ (codes "set")
      then (do vals ← client.s_members key; some (set_reply vals))
      else if bytes_eq typ (codes "hash")
      then (do vals ← client.h_get_all key; some (hash_reply vals))
      else if bytes_eq typ (codes "zset")
      then (do vals ← client.z_range_with_scores key; some (zset_reply vals))
      else if bytes_eq typ []
      then some vanished
      else if bytes_eq typ (codes "stream")
      then fetch_stream fuel key
      else (do blob ← client.dump key; some (blob_reply blob))

  -- What `dumpKey` learns of a key.
  unfoldable pub read_key : ℕ → Bytes → Option (Reply Score × ℕ)
  unfolding fetch
  read_key fuel key = do
    ttl ← client.ttl key
    typ ← client.type_of key
    reply ← fetch fuel key typ
    some (reply, clamp ttl)

pub record DumpState : Type 0 where
  pub lines : List Bytes
  pub scanned : ℕ
  pub dumped : ℕ
  pub skipped : ℕ

module _ {Score : Type 0} (codec : Codec Score) (sorter : SortSlice) where
  -- The clock is read where a key expires within a second.
  unfoldable pub dump_key : Client Score → ℕ → ℕ → Bytes → Option (List Bytes)
  unfolding read_key write_reply
  dump_key client fuel now key = do
    (reply, ttl) ← read_key client fuel key
    some (write_reply now Score codec sorter key reply ttl)

  module _ (client : Client Score) (fuel : ℕ) (clock : Bytes → ℕ) (included : Bytes → Bool) where
    abbrev pub note_key : DumpState → Option (List Bytes) → DumpState
    note_key d none = record d { skipped = suc d.skipped }
    note_key d (some ls) = record d { lines = d.lines ++ ls; dumped = suc d.dumped }

    unfoldable pub dump_page : List Bytes → DumpState → DumpState
    unfolding dump_key
    dump_page [] d = d
    dump_page (key ∷ keys) d =
        let next = if included key then note_key d (dump_key client fuel (clock key) key) else d in
        dump_page keys next

    -- The answers of SCAN, in their order, up to the one whose cursor is 0.
    unfoldable pub dump_pages : List (Option (List Bytes)) → DumpState → DumpState × Bool
    unfolding dump_page
    dump_pages [] d = (d, d.skipped == 0)
    dump_pages (none ∷ pages) d = (d, false)
    dump_pages (some keys ∷ pages) d =
        dump_pages pages (dump_page keys (record d { scanned = d.scanned + length keys }))
