-- ===== src/Redis/Rebuild.antt =====
-- The commands that rebuild a key: what a dump is for, said without its lines.
use db_backup.Base.{
  ℕ, ◌+◌, ◌/◌, ◌*◌, List, [], ◌∷◌, ◌++◌, map, Option, none, some, Bytes, ltb, if◌then◌else◌, pos,
  true,
}
use db_backup.SortSlice.{SortSlice}
use db_backup.Redis.Data.{
  Reply, string_reply, list_reply, set_reply, hash_reply, zset_reply, stream_reply, vanished,
  blob_reply, Instant, now_plus, unix_milli, Command, set, h_set, r_push, s_add, z_add, x_add,
  restore_blob, x_group_create, expire_at,
}
use db_backup.Redis.Dump.{second, milli, sorted_fields}

-- When a key with this time to live expires: whole seconds after the restore, or at the millisecond.
abbrev pub expiry : ℕ → ℕ → Option Instant
expiry now ttl =
    if ltb 0 (ttl / second)
    then some (now_plus (pos (ttl / second * second)))
    else if ltb 0 ttl
    then some (unix_milli (pos ((now + ttl) / milli)))
    else none

abbrev pub expire : {Score : Type 0} → Bytes → Option Instant → List (Command Score)
expire key none = []
expire key (some at) = expire_at key at ∷ []

module _ {Score : Type 0} (sorter : SortSlice) (now : ℕ) where
  abbrev pub rebuild : Bytes → Reply Score → ℕ → List (Command Score)
  rebuild key (string_reply val) ttl = set key val (expiry now ttl) ∷ []
  rebuild key (list_reply []) ttl = []
  rebuild key (list_reply (v ∷ vals)) ttl = r_push key (v ∷ vals) ∷ expire key (expiry now ttl)
  rebuild key (set_reply []) ttl = []
  rebuild key (set_reply (v ∷ vals)) ttl = s_add key (v ∷ vals) ∷ expire key (expiry now ttl)
  rebuild key (hash_reply []) ttl = []
  rebuild key (hash_reply (e ∷ entries)) ttl = h_set key (e ∷ entries) ∷ expire key (expiry now ttl)
  rebuild key (zset_reply []) ttl = []
  rebuild key (zset_reply (z ∷ entries)) ttl = z_add key (z ∷ entries) ∷ expire key (expiry now ttl)
  rebuild key (stream_reply msgs groups) ttl =
      map (λ m. x_add key m.id (sorted_fields sorter m.values)) msgs
      ++ map (λ g. x_group_create key g.name g.last_delivered_id true) groups
      ++ expire key (expiry now ttl)
  rebuild key vanished ttl = []
  rebuild key (blob_reply blob) ttl = restore_blob key blob ∷ expire key (expiry now ttl)
