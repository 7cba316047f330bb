-- ===== src/Redis/Tokens.antt =====
-- The texts that `SplitRedisArgs` keeps as one argument, and what `UnquoteRedisArg` makes of them.
use db_backup.Base.{
  ℕ, suc, ◌+◌, ◌-◌, ◌≡◌, refl, sym, ap, ◌∙◌, Bool, true, false, ◌&&◌, ◌||◌, not, length-append, [],
  ◌∷◌, ◌++◌, append_assoc, append-nil, Bytes, ◌==◌, leb, if◌then◌else◌, length, take-append, All,
  arith,
}
use db_backup.Text.{has_prefix, replace_byte, replace_byte-append, has_suffix-last}
use db_backup.Redis.Args.{
  quote_mark, backslash, quote_redis, outside, quoted, args_from, unescape, strip_quotes,
  unquote_redis_arg,
}

-- The four replacements, byte by byte.
abbrev pub hide : ℕ → Bytes
hide c =
    if c == backslash
    then backslash ∷ backslash ∷ []
    else if c == quote_mark
    then backslash ∷ quote_mark ∷ []
    else if c == 10
    then backslash ∷ b'n' ∷ []
    else if c == 13
    then backslash ∷ b'r' ∷ []
    else c ∷ []

unfoldable pub hidden : Bytes → Bytes
hidden [] = []
hidden (c ∷ s) = hide c ++ hidden s

replaced : Bytes → Bytes
unfolding replace_byte
replaced s =
    replace_byte
      (replace_byte
        (replace_byte (replace_byte s backslash (backslash ∷ backslash ∷ [])) quote_mark
          (backslash ∷ quote_mark ∷ []))
        10 (backslash ∷ b'n' ∷ []))
      13 (backslash ∷ b'r' ∷ [])

replaced-one : (c : ℕ) → replaced (c ∷ []) ≡ hide c
unfolding replaced
replaced-one c = ground arith

replaced-append : (s t : Bytes) → replaced (s ++ t) ≡ replaced s ++ replaced t
unfolding replaced
replaced-append s t = simp replace_byte-append

replaced-nil : replaced [] ≡ []
unfolding replaced
replaced-nil = refl

replaced-hidden : (s : Bytes) → replaced s ≡ hidden s
unfolding hidden
replaced-hidden [] = replaced-nil
replaced-hidden (c ∷ s) = replaced-append (c ∷ []) s ∙ rw (replaced-one c, replaced-hidden s) refl

pub quote_redis-hidden : (s : Bytes) → quote_redis s ≡ quote_mark ∷ (hidden s ++ quote_mark ∷ [])
unfolding quote_redis replaced
quote_redis-hidden s = rw (sym (replaced-hidden s)) refl

unescape-hidden : (s : Bytes) → unescape false (hidden s) ≡ s
unfolding hidden unescape
unescape-hidden [] = refl
unescape-hidden (c ∷ s) = ground (arith, unescape-hidden s)

-- What `SplitRedisArgs` reads as a part of one argument wherever it stands outside of quotes.
abbrev pub IsToken : Bytes → Type 0
IsToken t =
    (cur rest : Bytes) → args_from cur outside (t ++ rest) ≡ args_from (cur ++ t) outside rest

args_from-escaped :
    (d : ℕ) (cur rest : Bytes)
    → args_from cur quoted (backslash ∷ d ∷ rest)
      ≡ args_from (cur ++ backslash ∷ d ∷ []) quoted rest
unfolding args_from
args_from-escaped d cur rest = ap (λ t. args_from t quoted rest) (append_assoc cur _ _)

args_from-hide :
    (c : ℕ) (cur rest : Bytes)
    → args_from cur quoted (hide c ++ rest) ≡ args_from (cur ++ hide c) quoted rest
unfolding args_from
args_from-hide c cur rest = ground (
  arith,
  args_from-escaped backslash cur rest,
  args_from-escaped quote_mark cur rest,
  args_from-escaped b'n' cur rest,
  args_from-escaped b'r' cur rest,
)

args_from-hidden :
    (s cur rest : Bytes)
    → args_from cur quoted (hidden s ++ rest) ≡ args_from (cur ++ hidden s) quoted rest
unfolding hidden
args_from-hidden [] cur rest = rw append-nil refl
args_from-hidden (c ∷ s) cur rest = simp (append_assoc, args_from-hide c, args_from-hidden s)

pub quote_redis-IsToken : (s : Bytes) → IsToken (quote_redis s)
unfolding args_from
quote_redis-IsToken s cur rest =
    rw
      (
        quote_redis-hidden s,
        append_assoc (hidden s) (quote_mark ∷ []) rest,
        args_from-hidden s (cur ++ quote_mark ∷ []) (quote_mark ∷ rest),
        append_assoc cur (quote_mark ∷ []) (hidden s),
        append_assoc cur (quote_mark ∷ hidden s) (quote_mark ∷ []),
      )
      refl

-- A printable byte that neither quotes nor escapes.
abbrev pub is_plain : ℕ → Bool
is_plain c = leb 33 c && (leb c 126 && not (c == quote_mark || c == backslash))

abbrev pub IsPlain : Bytes → Type 0
IsPlain w = All (λ c. is_plain c ≡ true) w

args_from-plain :
    (c : ℕ) (cur rest : Bytes)
    → is_plain c ≡ true
    → args_from cur outside (c ∷ rest) ≡ args_from (cur ++ c ∷ []) outside rest
unfolding args_from
args_from-plain c cur rest h = ground arith

pub IsPlain-IsToken : (w : Bytes) → IsPlain w → IsToken w
IsPlain-IsToken [] h cur rest = rw append-nil refl
IsPlain-IsToken (c ∷ w) (p, ps) cur rest =
    rw
      (
        args_from-plain c cur (w ++ rest) p,
        IsPlain-IsToken w ps (cur ++ c ∷ []) rest,
        append_assoc cur (c ∷ []) w,
      )
      refl

unescape-plain : (w : Bytes) → IsPlain w → unescape false w ≡ w
unfolding unescape
unescape-plain [] h = refl
unescape-plain (c ∷ w) (p, ps) = ground (arith, unescape-plain w ps)

strip_quotes-quoted : (s : Bytes) → strip_quotes (quote_mark ∷ (s ++ quote_mark ∷ [])) ≡ s
unfolding strip_quotes
strip_quotes-quoted s =
    rw
      (
        has_suffix-last (quote_mark ∷ s) quote_mark quote_mark,
        length-append s (quote_mark ∷ []),
        take-append s (quote_mark ∷ []) (suc (length s + 1) - 2) (omega arith),
      )
      (ground arith)

pub unquote_redis_arg-quote_redis : (s : Bytes) → unquote_redis_arg (quote_redis s) ≡ s
unfolding unquote_redis_arg
unquote_redis_arg-quote_redis s =
    rw (quote_redis-hidden s, strip_quotes-quoted (hidden s)) (unescape-hidden s)

strip_quotes-plain : (w : Bytes) → IsPlain w → strip_quotes w ≡ w
unfolding strip_quotes has_prefix
strip_quotes-plain [] h = refl
strip_quotes-plain (c ∷ w) (p, ps) = ground arith

pub unquote_redis_arg-plain : (w : Bytes) → IsPlain w → unquote_redis_arg w ≡ w
unfolding unquote_redis_arg
unquote_redis_arg-plain w h = rw (strip_quotes-plain w h) (unescape-plain w h)
