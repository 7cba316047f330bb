-- ===== src/Redis/Replies.antt =====
-- What is printed for a key is read as the commands that rebuild it.
use db_backup.Base.{
  ℕ, ◌+◌, ◌/◌, ◌*◌, ◌^◌, ◌<◌, ◌≡◌, ◌≢◌, refl, true, false, List, [], ◌∷◌, map, some, Bytes, codes,
  ltb, All, arith, Bool-cases, inl, inr, bytes_eq, pos, ℤ,
}
use db_backup.Text.{to_upper, upper}
use db_backup.Clock.{decimal}
use db_backup.SortSlice.{SortSlice}
use db_backup.Redis.Args.{quote_redis}
use db_backup.Redis.Pairs.{IsDistinct}
use db_backup.Redis.Data.{
  Message, Group, Reply, string_reply, list_reply, set_reply, hash_reply, zset_reply, stream_reply,
  vanished, blob_reply, now_plus, unix_milli, Command, set, r_push, s_add, x_add, x_group_create,
  Codec, IsLawful,
}
use db_backup.Redis.Dump.{
  line, second, milli, write_with_ttl, write_restore_list, write_restore_set, write_restore_hash,
  write_restore_zset, write_restore_stream, write_restore_cmd, write_reply, keys_of, message_line,
  group_line, sorted_fields,
}
use db_backup.Redis.Restore.{restore_args, restore_values, set_option, is_zero}
use db_backup.Redis.Rebuild.{expiry, expire, rebuild}
use db_backup.Redis.Tokens.{unquote_redis_arg-plain}
use db_backup.Redis.Reads.{IsReadAs}
use db_backup.Redis.Expiry.{
  AreReadAs, AreReadAs-append, IsInRange, write_key_ttl-AreReadAs, plain_text-IsArg, duration_small,
}
use db_backup.Redis.Writers.{set_plain-IsReadAs, set_option-IsReadAs, hset-IsReadAs, xadd-IsReadAs}
use db_backup.Redis.Collections.{values-IsReadAs, zadd-IsReadAs, blob-IsReadAs, xgroup-IsReadAs}

-- What Redis and the client guarantee of an answer: a map has no key twice, a message has a field,
-- and a payload is not empty.
abbrev pub IsReply : {Score : Type 0} → Reply Score → Type 0
IsReply (hash_reply entries) = IsDistinct (keys_of entries)
IsReply (stream_reply msgs groups) = All (λ m. IsDistinct (keys_of m.values) × (m.values ≢ [])) msgs
IsReply (blob_reply blob) = blob ≢ []
IsReply _ = Unit

ex_option :
    (n : ℕ)
    → n * second < 2 ^ 63
    → set_option (to_upper (codes "EX")) (pos n) ≡ some (now_plus (pos (n * second)))
unfolding set_option to_upper upper bytes_eq
ex_option n h = rw (duration_small n second h) refl

pxat_option : (n : ℕ) → set_option (to_upper (codes "PXAT")) (pos n) ≡ some (unix_milli (pos n))
unfolding set_option to_upper upper bytes_eq
pxat_option n = refl

now_not_zero : (d : ℤ) → is_zero (now_plus d) ≡ false
unfolding is_zero
now_not_zero d = refl

milli_not_zero : (n : ℕ) → is_zero (unix_milli (pos n)) ≡ false
unfolding is_zero
milli_not_zero n = ground arith

module _ {Score : Type 0} (codec : Codec Score) (now : ℕ) where
  write_with_ttl-AreReadAs :
      (key val : Bytes) (ttl : ℕ)
      → IsInRange now ttl
      → AreReadAs codec
          (write_with_ttl now (quote_redis key) val ttl)
          (set key val (expiry now ttl) ∷ [])
  unfolding write_with_ttl
  write_with_ttl-AreReadAs key val ttl h = elim (Bool-cases (ltb 0 (ttl / second))) [
    | inl e ↦ rw e (seconds, tt)
    | inr e ↦ rw e (elim (Bool-cases (ltb 0 ttl)) [
      | inl p ↦ rw p (millis, tt)
      | inr p ↦ rw p (set_plain-IsReadAs codec key val, tt)
    ])
  ]
    where
      whole : ttl / second * second < 2 ^ 63
      whole = omega (arith, h)

      seconds :
          IsReadAs Score codec
            (line (
              codes "SET"
              ∷ quote_redis key
              ∷ quote_redis val
              ∷ codes "EX"
              ∷ decimal (ttl / second)
              ∷ []))
            (set key val (some (now_plus (pos (ttl / second * second)))))
      seconds =
          set_option-IsReadAs codec key val (codes "EX") (ttl / second)
            (now_plus (pos (ttl / second * second)))
            (plain_text-IsArg (codes "EX") (λ e. cc) (ground arith))
            (unquote_redis_arg-plain (codes "EX") (ground arith)) (omega (arith, h))
            (ex_option (ttl / second) whole) (now_not_zero _)

      millis :
          IsReadAs Score codec
            (line (
              codes "SET"
              ∷ quote_redis key
              ∷ quote_redis val
              ∷ codes "PXAT"
              ∷ decimal ((now + ttl) / milli)
              ∷ []))
            (set key val (some (unix_milli (pos ((now + ttl) / milli)))))
      millis =
          set_option-IsReadAs codec key val (codes "PXAT") ((now + ttl) / milli)
            (unix_milli (pos ((now + ttl) / milli)))
            (plain_text-IsArg (codes "PXAT") (λ e. cc) (ground arith))
            (unquote_redis_arg-plain (codes "PXAT") (ground arith)) h.1 (pxat_option _)
            (milli_not_zero _)

  cmd-AreReadAs :
      (verb key : Bytes) (rest : List Bytes) (ttl : ℕ) (command : Command Score)
      → IsInRange now ttl
      → IsReadAs Score codec (line (verb ∷ quote_redis key ∷ rest)) command
      → AreReadAs codec
          (write_restore_cmd now verb (quote_redis key) rest ttl)
          (command ∷ expire key (expiry now ttl))
  unfolding write_restore_cmd
  cmd-AreReadAs verb key rest ttl command h read =
      (read, write_key_ttl-AreReadAs codec now key ttl h)

  messages-AreReadAs :
      (sorter : SortSlice) (key : Bytes) (msgs : List Message)
      → All (λ m. IsDistinct (keys_of m.values) × (m.values ≢ [])) msgs
      → AreReadAs codec
          (map (message_line sorter (quote_redis key)) msgs)
          (map (λ m. x_add key m.id (sorted_fields sorter m.values)) msgs)
  messages-AreReadAs sorter key [] h = tt
  messages-AreReadAs sorter key (m ∷ msgs) ((distinct, filled), h) =
      (xadd-IsReadAs codec sorter key m distinct filled, messages-AreReadAs sorter key msgs h)

  groups-AreReadAs :
      (key : Bytes) (groups : List Group)
      → AreReadAs codec
          (map (group_line (quote_redis key)) groups)
          (map (λ g. x_group_create key g.name g.last_delivered_id true) groups)
  groups-AreReadAs key [] = tt
  groups-AreReadAs key (g ∷ groups) = (xgroup-IsReadAs codec key g, groups-AreReadAs key groups)

  rpush_switch :
      (args : List Bytes)
      → restore_args Score codec (to_upper (codes "RPUSH")) args
        ≡ restore_values Score codec r_push args
  unfolding restore_args to_upper upper bytes_eq
  rpush_switch args = refl

  sadd_switch :
      (args : List Bytes)
      → restore_args Score codec (to_upper (codes "SADD")) args
        ≡ restore_values Score codec s_add args
  unfolding restore_args to_upper upper bytes_eq
  sadd_switch args = refl

  pub write_reply-AreReadAs :
      (sorter : SortSlice) (key : Bytes) (reply : Reply Score) (ttl : ℕ)
      → IsLawful Score codec
      → IsReply reply
      → IsInRange now ttl
      → AreReadAs codec
          (write_reply now Score codec sorter key reply ttl)
          (rebuild sorter now key reply ttl)
  unfolding write_reply write_restore_list write_restore_set write_restore_hash write_restore_zset
      write_restore_stream
  write_reply-AreReadAs sorter key (string_reply val) ttl law h range =
      write_with_ttl-AreReadAs key val ttl range
  write_reply-AreReadAs sorter key (list_reply []) ttl law h range = tt
  write_reply-AreReadAs sorter key (list_reply (v ∷ vals)) ttl law h range =
      cmd-AreReadAs _ key _ ttl _ range
        (values-IsReadAs codec (codes "RPUSH") key v vals r_push (ground arith) rpush_switch)
  write_reply-AreReadAs sorter key (set_reply []) ttl law h range = tt
  write_reply-AreReadAs sorter key (set_reply (v ∷ vals)) ttl law h range =
      cmd-AreReadAs _ key _ ttl _ range
        (values-IsReadAs codec (codes "SADD") key v vals s_add (ground arith) sadd_switch)
  write_reply-AreReadAs sorter key (hash_reply []) ttl law h range = tt
  write_reply-AreReadAs sorter key (hash_reply ((k, v) ∷ entries)) ttl law h range =
      cmd-AreReadAs _ key _ ttl _ range (hset-IsReadAs codec key k v entries h)
  write_reply-AreReadAs sorter key (zset_reply []) ttl law h range = tt
  write_reply-AreReadAs sorter key (zset_reply (z ∷ entries)) ttl law h range =
      cmd-AreReadAs _ key _ ttl _ range (zadd-IsReadAs codec key z entries law)
  write_reply-AreReadAs sorter key (stream_reply msgs groups) ttl law h range =
      AreReadAs-append codec _ _ _ _
        (AreReadAs-append codec _ _ _ _ (messages-AreReadAs sorter key msgs h)
          (groups-AreReadAs key groups))
        (write_key_ttl-AreReadAs codec now key ttl range)
  write_reply-AreReadAs sorter key vanished ttl law h range = tt
  write_reply-AreReadAs sorter key (blob_reply blob) ttl law h range =
      (blob-IsReadAs codec key blob law h, write_key_ttl-AreReadAs codec now key ttl range)
