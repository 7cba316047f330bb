-- ===== src/Redis/Session.antt =====
-- `Restore` of src/internal/database/engine/redis/ops.go: the loop over the lines of a dump. The server is a
-- state and a function that answers each call.
use db_backup.Base.{
  ℕ, suc, Bool, true, false, ◌&&◌, not, List, [], ◌∷◌, Option, none, some, Bytes, ◌==◌, leb,
  if◌then◌else◌, length, pos, negsuc,
}
use db_backup.Text.{trim_suffix, trim_space, split, atoi}
use db_backup.Redis.Args.{split_redis_args}
use db_backup.Redis.Data.{Command, Codec}
use db_backup.Redis.Restore.{restore_line}

-- A blank line or a comment.
abbrev pub is_ignored : Bytes → Bool
is_ignored [] = true
is_ignored (c ∷ s) = c == b'#'

pub record Progress (Server : Type 0) : Type 0 where
  pub server : Server
  pub restored : ℕ
  pub skipped : ℕ

-- `bufio.ScanLines`: the line feeds end the lines, and one carriage return before each is dropped.
unfoldable pub drop_last_empty : List Bytes → List Bytes
drop_last_empty [] = []
drop_last_empty ([] ∷ []) = []
drop_last_empty (l ∷ ls) = l ∷ drop_last_empty ls

unfoldable pub raw_lines : Bytes → List Bytes
unfolding split drop_last_empty
raw_lines text = drop_last_empty (split text 10)

-- The size of the scanner's buffer, which a line and its end have to fit in.
abbrev pub max_token : ℕ
max_token = 16777216

unfoldable pub parse_db_index : Bytes → Option ℕ
unfolding trim_space atoi
parse_db_index name = elim (trim_space name) [
  | [] ↦ some 0
  | c ∷ s ↦ elim (atoi (c ∷ s)) [ none ↦ none | some (pos n) ↦ some n | some (negsuc n) ↦ none ]
]

module _ {Server : Type 0} {Score : Type 0} (exec : Command Score → Server → Server × Bool) where
  abbrev settle : Progress Server → Server × Bool → Progress Server
  settle p (s, true) = record p { server = s; restored = suc p.restored }
  settle p (s, false) = record p { server = s; skipped = suc p.skipped }

  -- A line that is no command counts as skipped, as does a call that fails.
  abbrev pub try_command : Progress Server → Option (Command Score) → Progress Server
  try_command p none = record p { skipped = suc p.skipped }
  try_command p (some c) = settle p (exec c p.server)

  module _ (codec : Codec Score) where
    abbrev pub try_parts : Progress Server → List Bytes → Progress Server
    try_parts p [] = p
    try_parts p (verb ∷ parts) = try_command p (restore_line Score codec (verb ∷ parts))

    -- The body of the loop.
    unfoldable pub attempt : Progress Server → Bytes → Progress Server
    unfolding restore_line split_redis_args trim_space trim_suffix
    attempt p raw =
        let text = trim_space (trim_suffix raw (13 ∷ [])) in
        if is_ignored text then p else try_parts p (split_redis_args text)

    -- The loop, and whether the scanner gave up on a line that fills its buffer.
    unfoldable pub restore_scan : ℕ → List Bytes → Progress Server → Progress Server × Bool
    unfolding attempt
    restore_scan limit [] p = (p, false)
    restore_scan limit (raw ∷ rest) p =
        let more = restore_scan limit rest (attempt p raw) in
        if leb limit (length raw) then (p, true) else more

    -- The state behind the loop, and whether `Restore` reports success.
    abbrev pub concluded : Progress Server × Bool → Server × Bool
    concluded (p, too_long) = (p.server, not too_long && p.skipped == 0)

    -- `ping` is whether the server answers.
    unfoldable pub restore : Bool → Bytes → Bytes → Server → Server × Bool
    unfolding restore_scan raw_lines parse_db_index
    restore ping db_name text s = elim (parse_db_index db_name) [
      | none ↦ (s, false)
      | some db ↦
          let start : Progress Server = record { server = s; restored = 0; skipped = 0 } in
          if ping then concluded (restore_scan max_token (raw_lines text) start) else (s, false)
    ]
