-- ===== src/Redis/Data.antt =====
-- What the Redis client exchanges with the dump and the restore, and the external functions they
-- call: `strconv.FormatFloat`, `strconv.ParseFloat` and standard base64.
use db_backup.Base.{◌≡◌, ◌≢◌, [], Bool, true, List, Option, some, Bytes, ℤ, All}
use db_backup.Redis.Tokens.{is_plain}

pub record Message : Type 0 where
  pub id : Bytes
  pub values : List (Bytes × Bytes)

pub record Group : Type 0 where
  pub name : Bytes
  pub last_delivered_id : Bytes

-- `time.Now().Add(d)`, `time.Unix(n, 0)` and `time.UnixMilli(n)`.
pub data Instant : Type 0 where
  now_plus unix unix_milli : ℤ → Instant

-- Scores are Go's `float64`.
module _ (Score : Type 0) where
  -- The value that the client answers for a key, by the key's type.
  pub data Reply : Type 0 where
    string_reply : Bytes → Reply
    list_reply set_reply : List Bytes → Reply
    hash_reply : List (Bytes × Bytes) → Reply
    zset_reply : List (Score × Bytes) → Reply
    stream_reply : List Message → List Group → Reply
    vanished : Reply
    blob_reply : Bytes → Reply

  -- A call of the client by `restoreLine`.
  pub data Command : Type 0 where
    set : Bytes → Bytes → Option Instant → Command
    h_set : Bytes → List (Bytes × Bytes) → Command
    r_push s_add : Bytes → List Bytes → Command
    z_add : Bytes → List (Score × Bytes) → Command
    x_add : Bytes → Bytes → List (Bytes × Bytes) → Command
    restore_blob : Bytes → Bytes → Command
    x_group_create : Bytes → Bytes → Bytes → Bool → Command
    expire_at : Bytes → Instant → Command

  pub record Codec : Type 0 where
    pub format_float : Score → Bytes
    pub parse_float : Bytes → Option Score
    pub encode_blob : Bytes → Bytes
    pub decode_blob : Bytes → Option Bytes

  -- What the packages document: the texts are printable words and can be read back.
  pub record IsLawful (codec : Codec) : Type 0 where
    pub parse_format : (x : Score) → codec.parse_float (codec.format_float x) ≡ some x
    pub format_plain : (x : Score) → All (λ c. is_plain c ≡ true) (codec.format_float x)
    pub format_filled : (x : Score) → codec.format_float x ≢ []
    pub decode_encode : (b : Bytes) → codec.decode_blob (codec.encode_blob b) ≡ some b
    pub encode_plain : (b : Bytes) → All (λ c. is_plain c ≡ true) (codec.encode_blob b)
    pub encode_filled : (b : Bytes) → b ≢ [] → codec.encode_blob b ≢ []
