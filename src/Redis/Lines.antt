-- ===== src/Redis/Lines.antt =====
-- The lines of a dump: arguments joined by spaces, as `writeRestoreCmd` and its siblings write them.
use db_backup.Base.{
  ℕ, ◌≡◌, ◌≢◌, refl, sym, ap, ◌∙◌, Bool, true, false, List, [], ◌∷◌, ◌++◌, append-nil, append_assoc,
  Bytes, codes, All, All-append, All-intro, All_get, In, inl, inr, leb, ◌&&◌, arith, ◌==◌,
}
use db_backup.Text.{join}
use db_backup.Redis.Args.{quote_mark, quote_redis, outside, flush, args_from, split_redis_args}
use db_backup.Redis.Tokens.{
  hidden, quote_redis-hidden, IsToken, is_plain, IsPlain, quote_redis-IsToken, IsPlain-IsToken,
}

abbrev pub is_graphic : ℕ → Bool
is_graphic c = leb 33 c && leb c 126

-- One argument of a line, as it stands there.
pub record IsArg (t : Bytes) : Type 0 where
  pub token : IsToken t
  pub front : Bytes
  pub final : ℕ
  pub ends : t ≡ front ++ final ∷ []
  pub graphic : is_graphic final ≡ true
  pub one_line : All (λ c. (c == 10) ≡ false) t

not_nil : (t front : Bytes) (d : ℕ) → t ≡ front ++ d ∷ [] → t ≢ []
not_nil t [] d e = λ h. cc
not_nil t (c ∷ front) d e = λ h. cc

flush-filled : (t : Bytes) (parts : List Bytes) → t ≢ [] → flush t parts ≡ t ∷ parts
flush-filled [] parts h = absurd (h refl)
flush-filled (c ∷ t) parts h = refl

args_from-last : (t : Bytes) → IsArg t → args_from [] outside t ≡ t ∷ []
unfolding args_from
args_from-last t a =
    ap (λ s. args_from [] outside s) (sym (append-nil t))
    ∙ a.token [] []
    ∙ flush-filled t [] (not_nil t a.front a.final a.ends)

args_from-first :
    (t rest : Bytes)
    → IsArg t
    → args_from [] outside (t ++ b' ' ∷ rest) ≡ t ∷ args_from [] outside rest
unfolding args_from
args_from-first t rest a =
    a.token [] (b' ' ∷ rest)
    ∙ flush-filled t (args_from [] outside rest) (not_nil t a.front a.final a.ends)

pub join-more :
    (t u : Bytes) (ts : List Bytes)
    → join (t ∷ u ∷ ts) (codes " ") ≡ t ++ b' ' ∷ join (u ∷ ts) (codes " ")
unfolding join
join-more t u ts = append_assoc t (codes " ") (join (u ∷ ts) (codes " "))

args_from-join : (ts : List Bytes) → All IsArg ts → args_from [] outside (join ts (codes " ")) ≡ ts
unfolding join args_from
args_from-join [] all = refl
args_from-join (t ∷ []) (a, _) = args_from-last t a
args_from-join (t ∷ u ∷ ts) (a, all) =
    ap (λ r. args_from [] outside r) (join-more t u ts)
    ∙ args_from-first t (join (u ∷ ts) (codes " ")) a
    ∙ ap (λ r. t ∷ r) (args_from-join (u ∷ ts) all)

-- The arguments of a line are found again, whatever bytes they quote.
pub split_redis_args-join :
    (ts : List Bytes) → All IsArg ts → split_redis_args (join ts (codes " ")) ≡ ts
unfolding split_redis_args
split_redis_args-join ts all = args_from-join ts all

hidden-one_line : (s : Bytes) → All (λ c. (c == 10) ≡ false) (hidden s)
unfolding hidden
hidden-one_line [] = tt
hidden-one_line (c ∷ s) = ground (arith, hidden-one_line s)

pub quote_redis-IsArg : (s : Bytes) → IsArg (quote_redis s)
quote_redis-IsArg s = record {
  token = quote_redis-IsToken s;
  front = quote_mark ∷ hidden s;
  final = quote_mark;
  ends = quote_redis-hidden s;
  graphic = refl;
  one_line =
      rw (quote_redis-hidden s)
        (refl, All-append _ (hidden s) (quote_mark ∷ []) (hidden-one_line s) (refl, tt));
}

-- Where a word that is not empty ends.
last_of : (c : ℕ) (w : Bytes) → (front : Bytes) × (d : ℕ) × (c ∷ w ≡ front ++ d ∷ []) × In d (c ∷ w)
last_of c [] = ([], c, refl, inl refl)
last_of c (b ∷ w) = let (front, d, e, i) = last_of b w in (c ∷ front, d, ap (λ r. c ∷ r) e, inr i)

pub plain-IsArg : (c : ℕ) (w : Bytes) → IsPlain (c ∷ w) → IsArg (c ∷ w)
plain-IsArg c w h =
    let (front, d, e, i) = last_of c w in
    record {
      token = IsPlain-IsToken (c ∷ w) h;
      front = front;
      final = d;
      ends = e;
      graphic = graphic_of d (All_get (λ b. is_plain b ≡ true) (c ∷ w) h i);
      one_line =
          All-intro _ (c ∷ w) (λ a j. inside a (All_get (λ b. is_plain b ≡ true) (c ∷ w) h j));
    }
  where
    graphic_of : (d : ℕ) → is_plain d ≡ true → is_graphic d ≡ true
    graphic_of d p = ground arith

    inside : (a : ℕ) → is_plain a ≡ true → (a == 10) ≡ false
    inside a p = ground arith
