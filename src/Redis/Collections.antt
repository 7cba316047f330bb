-- ===== src/Redis/Collections.antt =====
-- The lines of lists, sets, sorted sets, payloads and consumer groups are read as their commands.
use db_backup.Base.{
  ◌≡◌, ◌≢◌, refl, ◌∙◌, true, List, [], ◌∷◌, map, Bytes, codes, length, arith, bytes_eq,
}
use db_backup.Text.{to_upper, upper, lower, to_lower, equal_fold}
use db_backup.Redis.Args.{quote_redis}
use db_backup.Redis.Tokens.{unquote_redis_arg-quote_redis, unquote_redis_arg-plain}
use db_backup.Redis.Lines.{quote_redis-IsArg}
use db_backup.Redis.Reads.{IsVerb, IsReadAs, line-IsReadAs}
use db_backup.Redis.Pairs.{map-unquote_redis_arg, parse_members-scored, length-scored}
use db_backup.Redis.Data.{Group, Command, z_add, restore_blob, x_group_create, Codec, IsLawful}
use db_backup.Redis.Dump.{line, scored_members, group_line}
use db_backup.Redis.Restore.{
  restore_args, restore_values, restore_zadd, restore_payload, restore_xgroup,
}
use db_backup.Redis.Expiry.{plain_text-IsArg}
use db_backup.Redis.Writers.{quoted-IsArg, counted, scored_members-IsArg}

module _ {Score : Type 0} (codec : Codec Score) where
  pub values-IsReadAs :
      (verb key v : Bytes) (vals : List Bytes) (call : Bytes → List Bytes → Command Score)
      → IsVerb verb
      → ((args : List Bytes)
          → restore_args Score codec (to_upper verb) args ≡ restore_values Score codec call args)
      → IsReadAs Score codec
          (line (verb ∷ quote_redis key ∷ map quote_redis (v ∷ vals)))
          (call key (v ∷ vals))
  unfolding restore_values
  values-IsReadAs verb key v vals call good switch =
      line-IsReadAs Score codec verb (quote_redis key ∷ map quote_redis (v ∷ vals)) _ good
        (quote_redis-IsArg key, quoted-IsArg (v ∷ vals))
        (switch _
          ∙ rw
              (
                unquote_redis_arg-quote_redis key,
                unquote_redis_arg-quote_redis v,
                map-unquote_redis_arg vals,
              )
              refl)

  pub zadd-IsReadAs :
      (key : Bytes) (z : Score × Bytes) (entries : List (Score × Bytes))
      → IsLawful Score codec
      → IsReadAs Score codec
          (line (codes "ZADD" ∷ quote_redis key ∷ scored_members codec (z ∷ entries)))
          (z_add key (z ∷ entries))
  unfolding restore_args restore_zadd to_upper upper bytes_eq
  zadd-IsReadAs key z entries law =
      line-IsReadAs Score codec (codes "ZADD")
        (quote_redis key ∷ scored_members codec (z ∷ entries)) _ (ground arith)
        (quote_redis-IsArg key, scored_members-IsArg codec (z ∷ entries) law)
        (rw
          (
            unquote_redis_arg-quote_redis key,
            length-scored codec (z ∷ entries),
            parse_members-scored codec (z ∷ entries) law,
          )
          (counted (length entries) _))

  pub blob-IsReadAs :
      (key blob : Bytes)
      → IsLawful Score codec
      → blob ≢ []
      → IsReadAs Score codec
          (line (codes "RESTOREBLOB" ∷ quote_redis key ∷ codec.encode_blob blob ∷ []))
          (restore_blob key blob)
  unfolding restore_args restore_payload to_upper upper bytes_eq
  blob-IsReadAs key blob law filled =
      line-IsReadAs Score codec (codes "RESTOREBLOB")
        (quote_redis key ∷ codec.encode_blob blob ∷ []) _ (ground arith)
        (
          quote_redis-IsArg key,
          (plain_text-IsArg _ (law.encode_filled blob filled) (law.encode_plain blob), tt),
        )
        (rw
          (
            unquote_redis_arg-quote_redis key,
            unquote_redis_arg-plain _ (law.encode_plain blob),
            law.decode_encode blob,
          )
          refl)

  pub xgroup-IsReadAs :
      (key : Bytes) (g : Group)
      → IsReadAs Score codec
          (group_line (quote_redis key) g)
          (x_group_create key g.name g.last_delivered_id true)
  unfolding group_line restore_args restore_xgroup to_upper upper to_lower lower equal_fold bytes_eq
  xgroup-IsReadAs key g =
      line-IsReadAs Score codec (codes "XGROUP")
        (codes "CREATE"
          ∷ quote_redis key
          ∷ quote_redis g.name
          ∷ quote_redis g.last_delivered_id
          ∷ codes "MKSTREAM"
          ∷ [])
        _ (ground arith)
        (
          plain_text-IsArg (codes "CREATE") (λ h. cc) (ground arith),
          (
            quote_redis-IsArg key,
            (
              quote_redis-IsArg g.name,
              (
                quote_redis-IsArg g.last_delivered_id,
                (plain_text-IsArg (codes "MKSTREAM") (λ h. cc) (ground arith), tt),
              ),
            ),
          ),
        )
        (rw
          (
            unquote_redis_arg-plain (codes "CREATE") (ground arith),
            unquote_redis_arg-quote_redis key,
            unquote_redis_arg-quote_redis g.name,
            unquote_redis_arg-quote_redis g.last_delivered_id,
            unquote_redis_arg-plain (codes "MKSTREAM") (ground arith),
          )
          refl)
