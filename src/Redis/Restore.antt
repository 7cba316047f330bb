-- ===== src/Redis/Restore.antt =====
-- `restoreLine` and `splitSetOptions` of src/internal/database/engine/redis/ops.go. A line is a
-- call of the client or an error, of which the text is left out.
use db_backup.Base.{
  ℕ, suc, ◌-◌, ◌*◌, ◌%◌, Bool, true, false, ◌&&◌, ◌||◌, not, List, [], ◌∷◌, map, Option, none, some,
  Bytes, codes, ◌==◌, ltb, if◌then◌else◌, length, ℤ, pos, negsuc, wrap64, eqb_ℤ, bytes_eq, ◌>>=◌,
}
use db_backup.Text.{to_upper, equal_fold, atoi}
use db_backup.Redis.Args.{unquote_redis_arg}
use db_backup.Redis.Data.{
  Instant, now_plus, unix, unix_milli, Command, set, h_set, r_push, s_add, z_add, x_add,
  restore_blob, x_group_create, expire_at, Codec,
}

-- `time.Duration(n) * unit`
unfoldable pub duration : ℤ → ℕ → ℤ
unfolding wrap64
duration (pos n) unit = wrap64 (pos (n * unit))
duration (negsuc n) unit = wrap64 (negsuc (suc n * unit - 1))

-- `expireAt.IsZero()`: the first of January of the year 1, which no time now plus a `Duration` is.
unfoldable pub is_zero : Instant → Bool
is_zero (now_plus d) = false
is_zero (unix n) = eqb_ℤ n (negsuc 62135596799)
is_zero (unix_milli n) = eqb_ℤ n (negsuc 62135596799999)

unfoldable pub set_option : Bytes → ℤ → Option Instant
unfolding duration bytes_eq
set_option name n =
    if bytes_eq name (codes "EX")
    then some (now_plus (duration n 1000000000))
    else if bytes_eq name (codes "PX")
    then some (now_plus (duration n 1000000))
    else if bytes_eq name (codes "EXAT")
    then some (unix n)
    else if bytes_eq name (codes "PXAT")
    then some (unix_milli n)
    else none

-- The options behind the value; the first one decides.
unfoldable pub split_set_options : List Bytes → Option (Option Instant)
unfolding set_option to_upper atoi
split_set_options [] = some none
split_set_options (name ∷ []) = none
split_set_options (name ∷ value ∷ rest) = do
  n ← atoi value
  at ← set_option (to_upper name) n
  some (some at)

-- What `expireAt.IsZero()` leaves of the options.
abbrev pub kept_expiry : Option Instant → Option Instant
kept_expiry none = none
kept_expiry (some at) = if is_zero at then none else some at

unfoldable pub put : List (Bytes × Bytes) → Bytes → Bytes → List (Bytes × Bytes)
unfolding bytes_eq
put [] key value = (key, value) ∷ []
put ((k, v) ∷ rest) key value =
    let later = put rest key value in if bytes_eq k key then (k, value) ∷ rest else (k, v) ∷ later

-- The map that the loop over fields and values fills, in the order of the first assignments.
unfoldable pub fill_map : List (Bytes × Bytes) → List Bytes → List (Bytes × Bytes)
unfolding put
fill_map fields (k ∷ v ∷ rest) = fill_map (put fields k v) rest
fill_map fields (k ∷ []) = fields
fill_map fields [] = fields

module _ (Score : Type 0) (codec : Codec Score) where
  unfoldable pub parse_members : List Bytes → Option (List (Score × Bytes))
  parse_members (text ∷ member ∷ rest) = do
    score ← codec.parse_float text
    members ← parse_members rest
    some ((score, member) ∷ members)
  parse_members (text ∷ []) = some []
  parse_members [] = some []

  abbrev is_even : ℕ → Bool
  is_even n = n % 2 == 0

  unfoldable pub restore_set : List Bytes → Option (Command Score)
  unfolding split_set_options is_zero
  restore_set (key ∷ val ∷ options) = do
    expiry ← split_set_options options
    some (set key val (kept_expiry expiry))
  restore_set args = none

  unfoldable pub restore_hset : List Bytes → Option (Command Score)
  unfolding fill_map
  restore_hset (key ∷ fields) =
      if ltb (length fields) 2 || not (is_even (length fields))
      then none
      else some (h_set key (fill_map [] fields))
  restore_hset [] = none

  unfoldable pub restore_values :
      (Bytes → List Bytes → Command Score) → List Bytes → Option (Command Score)
  restore_values call (key ∷ v ∷ vals) = some (call key (v ∷ vals))
  restore_values call args = none

  unfoldable pub restore_zadd : List Bytes → Option (Command Score)
  unfolding parse_members
  restore_zadd (key ∷ scored) =
      let members = parse_members scored in
      if ltb (length scored) 2 || not (is_even (length scored))
      then none
      else do ms ← members; some (z_add key ms)
  restore_zadd [] = none

  unfoldable pub restore_xadd : List Bytes → Option (Command Score)
  unfolding fill_map
  restore_xadd (key ∷ id ∷ fields) =
      if ltb (length fields) 2 || not (is_even (length fields))
      then none
      else some (x_add key id (fill_map [] fields))
  restore_xadd args = none

  unfoldable pub restore_payload : List Bytes → Option (Command Score)
  restore_payload (key ∷ text ∷ []) = do blob ← codec.decode_blob text; some (restore_blob key blob)
  restore_payload args = none

  unfoldable pub restore_xgroup : List Bytes → Option (Command Score)
  unfolding equal_fold
  restore_xgroup (create ∷ key ∷ group ∷ id ∷ []) =
      if equal_fold create (codes "CREATE") then some (x_group_create key group id false) else none
  restore_xgroup (create ∷ key ∷ group ∷ id ∷ make ∷ []) =
      if equal_fold create (codes "CREATE") && equal_fold make (codes "MKSTREAM")
      then some (x_group_create key group id true)
      else none
  restore_xgroup args = none

  unfoldable pub restore_expire : List Bytes → Option (Command Score)
  unfolding duration atoi
  restore_expire (key ∷ text ∷ []) = do
    sec ← atoi text
    some (expire_at key (now_plus (duration sec 1000000000)))
  restore_expire args = none

  unfoldable pub restore_pexpireat : List Bytes → Option (Command Score)
  unfolding atoi
  restore_pexpireat (key ∷ text ∷ []) = do ms ← atoi text; some (expire_at key (unix_milli ms))
  restore_pexpireat args = none

  -- The switch on the verb, its arguments unquoted.
  unfoldable pub restore_args : Bytes → List Bytes → Option (Command Score)
  unfolding restore_set restore_hset restore_values restore_zadd restore_xadd restore_payload
      restore_xgroup restore_expire restore_pexpireat bytes_eq
  restore_args verb args =
      if bytes_eq verb (codes "SET")
      then restore_set args
      else if bytes_eq verb (codes "HSET")
      then restore_hset args
      else if bytes_eq verb (codes "RPUSH")
      then restore_values r_push args
      else if bytes_eq verb (codes "SADD")
      then restore_values s_add args
      else if bytes_eq verb (codes "ZADD")
      then restore_zadd args
      else if bytes_eq verb (codes "XADD")
      then restore_xadd args
      else if bytes_eq verb (codes "RESTOREBLOB")
      then restore_payload args
      else if bytes_eq verb (codes "XGROUP")
      then restore_xgroup args
      else if bytes_eq verb (codes "EXPIRE")
      then restore_expire args
      else if bytes_eq verb (codes "PEXPIREAT")
      then restore_pexpireat args
      else none

  -- The caller has tested that there is a part.
  unfoldable pub restore_line : List Bytes → Option (Command Score)
  unfolding restore_args to_upper unquote_redis_arg
  restore_line [] = none
  restore_line (verb ∷ parts) = restore_args (to_upper verb) (map unquote_redis_arg parts)
