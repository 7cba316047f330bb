-- ===== src/Redis/Dump.antt =====
-- `dumpKey` and the writers of src/internal/database/engine/redis/redis.go. A writer's result is the list
-- of the lines it prints; the commands of the client are arguments.
use db_backup.Base.{
  ℕ, ◌+◌, ◌/◌, List, [], ◌∷◌, ◌++◌, map, Bytes, codes, ltb, if◌then◌else◌, bytes_eq,
}
use db_backup.Text.{join, bytes_lt}
use db_backup.Clock.{decimal}
use db_backup.SortSlice.{SortSlice}
use db_backup.Redis.Args.{quote_redis}
use db_backup.Redis.Data.{
  Message, Group, Reply, string_reply, list_reply, set_reply, hash_reply, zset_reply, stream_reply,
  vanished, blob_reply, Codec,
}

abbrev pub second : ℕ
second = 1000000000

abbrev pub milli : ℕ
milli = 1000000

abbrev pub line : List Bytes → Bytes
line parts = join parts (codes " ")

unfoldable pub quoted_pairs : List (Bytes × Bytes) → List Bytes
quoted_pairs [] = []
quoted_pairs ((k, v) ∷ rest) = quote_redis k ∷ quote_redis v ∷ quoted_pairs rest

abbrev pub keys_of : List (Bytes × Bytes) → List Bytes
keys_of [] = []
keys_of ((k, v) ∷ rest) = k ∷ keys_of rest

-- `m.Values[k]`; the empty string where the key is missing.
unfoldable pub value_at : Bytes → List (Bytes × Bytes) → Bytes
unfolding bytes_eq
value_at key [] = []
value_at key ((k, v) ∷ rest) = let later = value_at key rest in if bytes_eq k key then v else later

-- The fields of a message in the order in which they are written.
unfoldable pub sorted_fields : SortSlice → List (Bytes × Bytes) → List (Bytes × Bytes)
unfolding value_at bytes_lt
sorted_fields sorter values =
    map (λ k. (k, value_at k values)) (sorter.sort Bytes bytes_lt (keys_of values))

unfoldable pub scored_members : {Score : Type 0} → Codec Score → List (Score × Bytes) → List Bytes
scored_members codec [] = []
scored_members codec ((score, member) ∷ rest) =
    codec.format_float score ∷ quote_redis member ∷ scored_members codec rest

unfoldable pub message_line : SortSlice → Bytes → Message → Bytes
unfolding quoted_pairs sorted_fields
message_line sorter q_key m =
    line (codes "XADD" ∷ q_key ∷ quote_redis m.id ∷ quoted_pairs (sorted_fields sorter m.values))

unfoldable pub group_line : Bytes → Group → Bytes
group_line q_key g = line (
    codes "XGROUP"
    ∷ codes "CREATE"
    ∷ q_key
    ∷ quote_redis g.name
    ∷ quote_redis g.last_delivered_id
    ∷ codes "MKSTREAM"
    ∷ [])

-- A `time.Duration` of a key that expires, and `time.Now()`, in nanoseconds.
module _ (now : ℕ) where
  unfoldable pub write_key_ttl : Bytes → ℕ → List Bytes
  write_key_ttl q_key ttl =
      if ltb 0 (ttl / second)
      then line (codes "EXPIRE" ∷ q_key ∷ decimal (ttl / second) ∷ []) ∷ []
      else if ltb 0 ttl
      then line (codes "PEXPIREAT" ∷ q_key ∷ decimal ((now + ttl) / milli) ∷ []) ∷ []
      else []

  unfoldable pub write_with_ttl : Bytes → Bytes → ℕ → List Bytes
  write_with_ttl q_key val ttl =
      let head = codes "SET" ∷ q_key ∷ quote_redis val ∷ [] in
      if ltb 0 (ttl / second)
      then line (head ++ codes "EX" ∷ decimal (ttl / second) ∷ []) ∷ []
      else if ltb 0 ttl
      then line (head ++ codes "PXAT" ∷ decimal ((now + ttl) / milli) ∷ []) ∷ []
      else line head ∷ []

  unfoldable pub write_restore_cmd : Bytes → Bytes → List Bytes → ℕ → List Bytes
  unfolding write_key_ttl
  write_restore_cmd verb q_key rest ttl = line (verb ∷ q_key ∷ rest) ∷ write_key_ttl q_key ttl

  -- The entries as the iteration over the map gives them.
  unfoldable pub write_restore_hash : Bytes → List (Bytes × Bytes) → ℕ → List Bytes
  unfolding write_restore_cmd quoted_pairs
  write_restore_hash q_key [] ttl = []
  write_restore_hash q_key (e ∷ entries) ttl =
      write_restore_cmd (codes "HSET") q_key (quoted_pairs (e ∷ entries)) ttl

  unfoldable pub write_restore_list : Bytes → List Bytes → ℕ → List Bytes
  unfolding write_restore_cmd
  write_restore_list q_key [] ttl = []
  write_restore_list q_key (v ∷ vals) ttl =
      write_restore_cmd (codes "RPUSH") q_key (map quote_redis (v ∷ vals)) ttl

  unfoldable pub write_restore_set : Bytes → List Bytes → ℕ → List Bytes
  unfolding write_restore_cmd
  write_restore_set q_key [] ttl = []
  write_restore_set q_key (v ∷ vals) ttl =
      write_restore_cmd (codes "SADD") q_key (map quote_redis (v ∷ vals)) ttl

  module _ (Score : Type 0) (codec : Codec Score) (sorter : SortSlice) where
    unfoldable pub write_restore_zset : Bytes → List (Score × Bytes) → ℕ → List Bytes
    unfolding write_restore_cmd scored_members
    write_restore_zset q_key [] ttl = []
    write_restore_zset q_key (z ∷ entries) ttl =
        write_restore_cmd (codes "ZADD") q_key (scored_members codec (z ∷ entries)) ttl

    unfoldable pub write_restore_stream : Bytes → List Message → List Group → ℕ → List Bytes
    unfolding message_line group_line write_key_ttl
    write_restore_stream q_key msgs groups ttl =
        map (message_line sorter q_key) msgs
        ++ map (group_line q_key) groups
        ++ write_key_ttl q_key ttl

    -- What the branches of `dumpKey` print.
    unfoldable pub write_reply : Bytes → Reply Score → ℕ → List Bytes
    unfolding write_with_ttl write_restore_list write_restore_set write_restore_hash
        write_restore_zset write_restore_stream write_key_ttl
    write_reply key reply ttl =
        let q_key = quote_redis key in
        elim reply [
          | string_reply val ↦ write_with_ttl q_key val ttl
          | list_reply vals ↦ write_restore_list q_key vals ttl
          | set_reply vals ↦ write_restore_set q_key vals ttl
          | hash_reply entries ↦ write_restore_hash q_key entries ttl
          | zset_reply entries ↦ write_restore_zset q_key entries ttl
          | stream_reply msgs groups ↦ write_restore_stream q_key msgs groups ttl
          | vanished ↦ []
          | blob_reply blob ↦
              line (codes "RESTOREBLOB" ∷ q_key ∷ codec.encode_blob blob ∷ [])
              ∷ write_key_ttl q_key ttl
        ]
