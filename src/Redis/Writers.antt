-- ===== src/Redis/Writers.antt =====
-- The lines that the writers of a dump print are read as the commands that rebuild the key.
use db_backup.Base.{
  ℕ, suc, ◌*◌, ◌%◌, ◌^◌, ◌<◌, ◌≡◌, ◌≢◌, refl, ap, ◌∙◌, false, ◌||◌, not, List, [], ◌∷◌, map, Option,
  some, none, Bytes, codes, ◌==◌, ltb, length, All, arith, if◌then◌else◌, ◌>>=◌, pos, bytes_eq,
}
use db_backup.Text.{to_upper, upper}
use db_backup.Clock.{decimal}
use db_backup.Clock.ReadBack.{atoi-decimal}
use db_backup.SortSlice.{SortSlice}
use db_backup.Redis.Args.{quote_redis, unquote_redis_arg}
use db_backup.Redis.Tokens.{unquote_redis_arg-quote_redis}
use db_backup.Redis.Lines.{IsArg, quote_redis-IsArg}
use db_backup.Redis.Reads.{IsReadAs, line-IsReadAs}
use db_backup.Redis.Pairs.{
  IsDistinct, map-quoted_pairs, fill_map-flat, length-flat, sorted_fields-IsDistinct,
  length-sorted_fields,
}
use db_backup.Redis.Data.{Message, Instant, Command, set, h_set, x_add, Codec, IsLawful}
use db_backup.Redis.Dump.{line, quoted_pairs, scored_members, keys_of, sorted_fields, message_line}
use db_backup.Redis.Restore.{
  restore_args, restore_set, restore_hset, restore_xadd, split_set_options, kept_expiry, set_option,
  is_zero,
}
use db_backup.Redis.Expiry.{decimal-IsArg, unquote_redis_arg-decimal, plain_text-IsArg}

pub quoted-IsArg : (vals : List Bytes) → All IsArg (map quote_redis vals)
quoted-IsArg [] = tt
quoted-IsArg (v ∷ vals) = (quote_redis-IsArg v, quoted-IsArg vals)

quoted_pairs-IsArg : (entries : List (Bytes × Bytes)) → All IsArg (quoted_pairs entries)
unfolding quoted_pairs
quoted_pairs-IsArg [] = tt
quoted_pairs-IsArg ((k, v) ∷ rest) =
    (quote_redis-IsArg k, (quote_redis-IsArg v, quoted_pairs-IsArg rest))

pub counted :
    {C : Type 0} (n : ℕ) (c : C)
    → (if ltb (2 * suc n) 2 || not (2 * suc n % 2 == 0) then none else some c) ≡ some c
counted n c = ground arith

module _ {Score : Type 0} (codec : Codec Score) where
  pub scored_members-IsArg :
      (members : List (Score × Bytes))
      → IsLawful Score codec
      → All IsArg (scored_members codec members)
  unfolding scored_members
  scored_members-IsArg [] law = tt
  scored_members-IsArg ((score, member) ∷ rest) law = (
    plain_text-IsArg _ (law.format_filled score) (law.format_plain score),
    (quote_redis-IsArg member, scored_members-IsArg rest law),
  )

  pub set_plain-IsReadAs :
      (key val : Bytes)
      → IsReadAs Score codec
          (line (codes "SET" ∷ quote_redis key ∷ quote_redis val ∷ []))
          (set key val none)
  unfolding restore_args restore_set split_set_options to_upper upper bytes_eq
  set_plain-IsReadAs key val =
      line-IsReadAs Score codec (codes "SET") (quote_redis key ∷ quote_redis val ∷ []) _
        (ground arith) (quote_redis-IsArg key, (quote_redis-IsArg val, tt))
        (rw (unquote_redis_arg-quote_redis key, unquote_redis_arg-quote_redis val) refl)

  -- The option's name is a word that is read as it is written.
  pub set_option-IsReadAs :
      (key val name : Bytes) (n : ℕ) (at : Instant)
      → IsArg name
      → unquote_redis_arg name ≡ name
      → n < 2 ^ 63
      → set_option (to_upper name) (pos n) ≡ some at
      → is_zero at ≡ false
      → IsReadAs Score codec
          (line (codes "SET" ∷ quote_redis key ∷ quote_redis val ∷ name ∷ decimal n ∷ []))
          (set key val (some at))
  unfolding restore_args restore_set split_set_options to_upper upper bytes_eq
  set_option-IsReadAs key val name n at arg same small option later =
      line-IsReadAs Score codec (codes "SET")
        (quote_redis key ∷ quote_redis val ∷ name ∷ decimal n ∷ []) _ (ground arith)
        (quote_redis-IsArg key, (quote_redis-IsArg val, (arg, (decimal-IsArg n, tt))))
        (rw
          (
            unquote_redis_arg-quote_redis key,
            unquote_redis_arg-quote_redis val,
            same,
            unquote_redis_arg-decimal n,
            atoi-decimal n small,
          )
          (ap outcome option ∙ ap (λ e. some (set key val e)) (kept at later)))
    where
      outcome : Option Instant → Option (Command Score)
      outcome o = (o >>= λ a. some (some a)) >>= λ e. some (set key val (kept_expiry e))

      kept : (at : Instant) → is_zero at ≡ false → kept_expiry (some at) ≡ some at
      kept at h = rw h refl

  pub hset-IsReadAs :
      (key k v : Bytes) (entries : List (Bytes × Bytes))
      → IsDistinct (keys_of ((k, v) ∷ entries))
      → IsReadAs Score codec
          (line (codes "HSET" ∷ quote_redis key ∷ quoted_pairs ((k, v) ∷ entries)))
          (h_set key ((k, v) ∷ entries))
  unfolding restore_args restore_hset to_upper upper bytes_eq
  hset-IsReadAs key k v entries distinct =
      line-IsReadAs Score codec (codes "HSET") (quote_redis key ∷ quoted_pairs ((k, v) ∷ entries)) _
        (ground arith) (quote_redis-IsArg key, quoted_pairs-IsArg ((k, v) ∷ entries))
        (rw
          (
            unquote_redis_arg-quote_redis key,
            map-quoted_pairs ((k, v) ∷ entries),
            length-flat ((k, v) ∷ entries),
            fill_map-flat ((k, v) ∷ entries) distinct,
          )
          (counted (length entries) _))

  pub xadd-IsReadAs :
      (sorter : SortSlice) (key : Bytes) (m : Message)
      → IsDistinct (keys_of m.values)
      → m.values ≢ []
      → IsReadAs Score codec
          (message_line sorter (quote_redis key) m)
          (x_add key m.id (sorted_fields sorter m.values))
  unfolding message_line restore_args restore_xadd to_upper upper bytes_eq
  xadd-IsReadAs sorter key m distinct filled =
      line-IsReadAs Score codec (codes "XADD")
        (quote_redis key ∷ quote_redis m.id ∷ quoted_pairs (sorted_fields sorter m.values)) _
        (ground arith)
        (
          quote_redis-IsArg key,
          (quote_redis-IsArg m.id, quoted_pairs-IsArg (sorted_fields sorter m.values)),
        )
        (rw
          (
            unquote_redis_arg-quote_redis key,
            unquote_redis_arg-quote_redis m.id,
            map-quoted_pairs (sorted_fields sorter m.values),
            fill_map-flat (sorted_fields sorter m.values)
                (sorted_fields-IsDistinct sorter m.values distinct),
            length-flat (sorted_fields sorter m.values),
            length-sorted_fields sorter m.values,
          )
          (filled_counted m.values filled))
    where
      filled_counted :
          (values : List (Bytes × Bytes)) {c : Command Score}
          → values ≢ []
          → (if ltb (2 * length values) 2 || not (2 * length values % 2 == 0) then none else some c)
            ≡ some c
      filled_counted [] h = absurd (h refl)
      filled_counted (v ∷ vs) h = counted (length vs) _
