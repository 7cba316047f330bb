-- ===== src/Redis/Examples.antt =====
-- Tests of the Redis dump and restore, and runs that meet the conditions of its theorems.
use db_backup.Base.{
  keep_if, ℕ, zero, suc, ◌+◌, ◌≡◌, ◌≢◌, refl, ap, ◌∙◌, Bool, true, List, [], ◌∷◌, ◌++◌, Option,
  some, none, Bytes, codes, ◌==◌, if◌then◌else◌, All, arith, pos, negsuc, bytes_eq, take, subst,
  sym,
}
use db_backup.Text.{digits_value, join, bytes_lt, trim_space, trim_suffix, has_suffix, atoi}
use db_backup.Clock.{decimal}
use db_backup.Clock.ReadBack.{digits_value-decimal, decimal-filled}
use db_backup.SortSlice.{by_insertion, insertion_sort}
use db_backup.Redis.Args.{quote_redis, split_redis_args}
use db_backup.Redis.Tokens.{IsPlain}
use db_backup.Redis.Expiry.{decimal-IsPlain}
use db_backup.Redis.Data.{
  Message, Command, set, h_set, x_add, x_group_create, now_plus, Codec, IsLawful,
}
use db_backup.Redis.Dump.{sorted_fields}
use db_backup.Redis.Keys.{Client, read_key, fetch, x_range_all, dump_pages, dump_page, dump_key}
use db_backup.Redis.Session.{parse_db_index, restore}
use db_backup.Redis.Stream.{Serves, x_range_all-whole}
use db_backup.Redis.Text.{text_of, Fits}
use db_backup.Redis.RoundTrip.{dumped_lines, restore-dump_pages}

-- A byte of a payload as so many ticks and a full stop.
ticks : ℕ → Bytes → Bytes
ticks zero s = b'.' ∷ s
ticks (suc n) s = b'i' ∷ ticks n s

tick_text : Bytes → Bytes
unfolding ticks
tick_text [] = []
tick_text (c ∷ b) = ticks c (tick_text b)

count_ticks : ℕ → Bytes → Bytes
count_ticks n [] = []
count_ticks n (c ∷ s) =
    let ended = n ∷ count_ticks 0 s in
    let more = count_ticks (suc n) s in if c == b'.' then ended else more

count_ticks-ticks :
    (n c k : ℕ) (s : Bytes) → k ≡ n + c → count_ticks n (ticks c s) ≡ k ∷ count_ticks 0 s
unfolding count_ticks ticks
count_ticks-ticks n zero k s e = ap (λ m. m ∷ count_ticks 0 s) (omega (arith, e))
count_ticks-ticks n (suc c) k s e = count_ticks-ticks (suc n) c k s (omega (arith, e))

count_ticks-tick_text : (b : Bytes) → count_ticks 0 (tick_text b) ≡ b
unfolding count_ticks tick_text
count_ticks-tick_text [] = refl
count_ticks-tick_text (c ∷ b) =
    count_ticks-ticks 0 c c (tick_text b) (omega arith) ∙ ap (λ r. c ∷ r) (count_ticks-tick_text b)

ticks-IsPlain : (c : ℕ) (s : Bytes) → IsPlain s → IsPlain (ticks c s)
unfolding ticks
ticks-IsPlain zero s h = (refl, h)
ticks-IsPlain (suc c) s h = (refl, ticks-IsPlain c s h)

tick_text-IsPlain : (b : Bytes) → IsPlain (tick_text b)
unfolding tick_text
tick_text-IsPlain [] = tt
tick_text-IsPlain (c ∷ b) = ticks-IsPlain c (tick_text b) (tick_text-IsPlain b)

ticks-filled : (c : ℕ) (s : Bytes) → ticks c s ≢ []
unfolding ticks
ticks-filled zero s = λ h. cc
ticks-filled (suc c) s = λ h. cc

tick_text-filled : (b : Bytes) → b ≢ [] → tick_text b ≢ []
unfolding tick_text
tick_text-filled [] h = absurd (h refl)
tick_text-filled (c ∷ b) h = ticks-filled c (tick_text b)

decimal_not_nil : (n : ℕ) → decimal n ≢ []
decimal_not_nil n = λ h. apart n h (decimal-filled n)
  where
    apart : (n : ℕ) → decimal n ≡ [] → (d : ℕ) × (t : Bytes) × (decimal n ≡ d ∷ t) → ⊥
    apart n h (d, t, e) = cc

-- Scores that are natural numbers.
abbrev whole_scores : Codec ℕ
whole_scores = record {
  format_float = decimal;
  parse_float = digits_value 0;
  encode_blob = tick_text;
  decode_blob = λ s. some (count_ticks 0 s);
}

whole_scores-IsLawful : IsLawful ℕ whole_scores
whole_scores-IsLawful = record {
  parse_format = digits_value-decimal;
  format_plain = decimal-IsPlain;
  format_filled = decimal_not_nil;
  decode_encode = λ b. ap some (count_ticks-tick_text b);
  encode_plain = tick_text-IsPlain;
  encode_filled = tick_text-filled;
}

-- A text with a quote, a backslash, a space and a line feed in it.
abbrev awkward : Bytes
awkward = b'"' ∷ 92 ∷ b' ' ∷ 10 ∷ b'n' ∷ []

awkward_args :
    split_redis_args (codes "SET " ++ quote_redis awkward) ≡ codes "SET" ∷ quote_redis awkward ∷ []
unfolding split_redis_args quote_redis
awkward_args = refl

abbrev events : List Message
events =
    record { id = codes "7-0"; values = (codes "b", awkward) ∷ (codes "a", codes "1") ∷ [] } ∷ []

abbrev type_name : Bytes → Bytes
type_name (c ∷ s) =
    if c == b's' then codes "string" else if c == b'h' then codes "hash" else codes "stream"
type_name [] = []

-- The stream from its start, or what stands behind an identifier; the order of these identifiers is
-- that of their bytes.
abbrev serve : Bytes → List Message
serve [] = []
serve (c ∷ id) = if c == b'(' then keep_if (λ (m : Message). bytes_lt id m.id) events else events

-- Three keys, of which the first expires after a minute and a half.
abbrev small_client : Client ℕ
small_client = record {
  ttl = λ k. if bytes_eq k (codes "s") then some (pos 90500000000) else some (negsuc 0);
  type_of = λ k. some (type_name k);
  get = λ k. some awkward;
  l_range = λ k. some [];
  s_members = λ k. none;
  h_get_all = λ k. some ((awkward, codes "x") ∷ ([], []) ∷ []);
  z_range_with_scores = λ k. some [];
  x_range_n = λ k start n. some (take n (serve start));
  x_info_groups = λ k. some (record { name = codes "g"; last_delivered_id = codes "7-0" } ∷ []);
  dump = λ k. none;
}

abbrev small_pages : List (Option (List Bytes))
small_pages = some (codes "s" ∷ codes "t" ∷ []) ∷ some (codes "h" ∷ []) ∷ []

-- A server that remembers its commands.
abbrev remember : Command ℕ → List (Command ℕ) → List (Command ℕ) × Bool
remember c s = (s ++ c ∷ [], true)

abbrev small_lines : List Bytes
small_lines = dumped_lines small_client whole_scores by_insertion 2 (λ k. 0) (λ k. true) small_pages

abbrev printed : List Bytes
printed =
    codes "SET \"s\" \"\\\"\\\\ \\nn\" EX 90"
    ∷ codes "XADD \"t\" \"7-0\" \"a\" \"1\" \"b\" \"\\\"\\\\ \\nn\""
    ∷ codes "XGROUP CREATE \"t\" \"g\" \"7-0\" MKSTREAM"
    ∷ codes "HSET \"h\" \"\\\"\\\\ \\nn\" \"x\" \"\" \"\""
    ∷ []

small_lines-printed : small_lines ≡ printed
unfolding dump_pages dump_page dump_key read_key fetch x_range_all bytes_eq decimal quote_redis join
    bytes_lt sorted_fields insertion_sort
small_lines-printed = refl

small_lines-Fits : All Fits small_lines
small_lines-Fits = subst (All Fits) (sym small_lines-printed) (refl, (refl, (refl, (refl, tt))))

one_event :
    (front : List Message) (l : Message) (behind : List Message)
    → events ≡ front ++ l ∷ behind
    → (l.id ≡ codes "7-0") × (behind ≡ [])
one_event [] l behind e = (cc, cc)
one_event (x ∷ []) l behind e = cc
one_event (x ∷ y ∷ front) l behind e = cc

serves_events : Serves small_client (codes "t") events
unfolding bytes_lt
serves_events = (
  λ n. refl,
  λ front l behind n e. let (name, last) = one_event front l behind e in rw (name, last) refl,
)

x_range_all-whole_example : x_range_all small_client 2 (codes "t") (codes "-") [] ≡ some events
x_range_all-whole_example =
    x_range_all-whole small_client (codes "t") events 2 serves_events (omega arith)

restore-dump_pages_example :
    restore remember whole_scores true (codes " 3") (text_of (codes "# db 3" ∷ [] ∷ small_lines)) []
    ≡ (
      set (codes "s") awkward (some (now_plus (pos 90000000000)))
          ∷ x_add (codes "t") (codes "7-0") ((codes "a", codes "1") ∷ (codes "b", awkward) ∷ [])
          ∷ x_group_create (codes "t") (codes "g") (codes "7-0") true
          ∷ h_set (codes "h") ((awkward, codes "x") ∷ ([], []) ∷ [])
          ∷ [],
      true,
    )
unfolding read_key fetch x_range_all bytes_eq parse_db_index trim_space atoi trim_suffix has_suffix
    sorted_fields bytes_lt insertion_sort
restore-dump_pages_example =
    restore-dump_pages small_client whole_scores by_insertion 2 (λ k. 0) (λ k. true) remember
      (codes " 3") 3 (codes "# db 3" ∷ [] ∷ []) small_pages [] whole_scores-IsLawful refl
      (ground arith, (tt, tt)) (refl, (refl, tt)) (refl, (refl, tt))
      (
        (tt, (omega arith, omega arith)),
        (
          (((((refl, tt), (tt, tt)), λ h. cc), tt), (omega arith, omega arith)),
          ((((refl, tt), (tt, tt)), (omega arith, omega arith)), tt),
        ),
      )
      small_lines-Fits
