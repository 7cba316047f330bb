-- ===== src/Redis/Args.antt =====
-- `QuoteRedis` of src/internal/database/engine/redis/redis.go, and `SplitRedisArgs` and `UnquoteRedisArg`
-- of src/internal/database/common/helpers.go.
use db_backup.Base.{
  ℕ, ◌-◌, Bool, true, false, ◌&&◌, List, [], ◌∷◌, ◌++◌, Bytes, codes, ◌==◌, leb, if◌then◌else◌,
  length, take, drop,
}
use db_backup.Text.{has_prefix, has_suffix, replace_byte}

abbrev pub quote_mark : ℕ
quote_mark = 34

abbrev pub backslash : ℕ
backslash = 92

unfoldable pub quote_redis : Bytes → Bytes
unfolding replace_byte
quote_redis s =
    let a = replace_byte s backslash (backslash ∷ backslash ∷ []) in
    let b = replace_byte a quote_mark (backslash ∷ quote_mark ∷ []) in
    let c = replace_byte b 10 (backslash ∷ b'n' ∷ []) in
    let d = replace_byte c 13 (backslash ∷ b'r' ∷ []) in quote_mark ∷ (d ++ quote_mark ∷ [])

-- Where the loop of `SplitRedisArgs` stands: outside of quotes, between them, or between them behind
-- a backslash that takes the next byte with it.
pub data Mode : Type 0 where
  outside quoted escaped : Mode

-- `if cur.Len() > 0 { parts = append(parts, cur.String()) }`
abbrev pub flush : Bytes → List Bytes → List Bytes
flush [] parts = parts
flush (c ∷ cur) parts = (c ∷ cur) ∷ parts

pub data Action : Type 0 where
  write : Mode → Action
  separate : Action

unfoldable pub action : Mode → ℕ → Action
action outside c =
    if c == quote_mark then write quoted else if c == b' ' then separate else write outside
action quoted c =
    if c == backslash
    then write escaped
    else if c == quote_mark
    then write outside
    else write quoted
action escaped c = write quoted

unfoldable pub args_from : Bytes → Mode → Bytes → List Bytes
unfolding action
args_from cur mode [] = flush cur []
args_from cur mode (c ∷ s) = elim (action mode c) [
  | write next ↦ args_from (cur ++ c ∷ []) next s
  | separate ↦ flush cur (args_from [] outside s)
]

unfoldable pub split_redis_args : Bytes → List Bytes
unfolding args_from
split_redis_args s = args_from [] outside s

-- What a byte behind a backslash stands for.
unfoldable pub reveal : ℕ → Bytes
reveal c =
    if c == backslash
    then backslash ∷ []
    else if c == quote_mark
    then quote_mark ∷ []
    else if c == b'n'
    then 10 ∷ []
    else if c == b'r'
    then 13 ∷ []
    else backslash ∷ c ∷ []

-- The loop of `UnquoteRedisArg`; the flag is set behind a backslash, which is written as it is where
-- no byte follows.
unfoldable pub unescape : Bool → Bytes → Bytes
unfolding reveal
unescape true [] = backslash ∷ []
unescape true (c ∷ s) = reveal c ++ unescape false s
unescape false [] = []
unescape false (c ∷ s) = elim (c == backslash) [
  | true ↦ unescape true s
  | false ↦ c ∷ unescape false s
]

unfoldable pub strip_quotes : Bytes → Bytes
unfolding has_prefix has_suffix
strip_quotes s =
    if leb 2 (length s) && (has_prefix s (codes "\"") && has_suffix s (codes "\""))
    then take (length s - 2) (drop 1 s)
    else s

unfoldable pub unquote_redis_arg : Bytes → Bytes
unfolding strip_quotes unescape
unquote_redis_arg s = unescape false (strip_quotes s)
