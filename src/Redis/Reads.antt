-- ===== src/Redis/Reads.antt =====
-- A line of a dump that `Restore` reads as one command.
use db_backup.Base.{
  ℕ, ◌≡◌, refl, sym, ap, ◌∙◌, true, false, List, [], ◌∷◌, ◌++◌, append_assoc, map, some, Bytes,
  codes, ◌==◌, All, All-append, arith,
}
use db_backup.Text.{is_space, trim_space, trim_space-solid, join, to_upper}
use db_backup.Redis.Args.{split_redis_args, unquote_redis_arg}
use db_backup.Redis.Tokens.{is_plain, IsPlain}
use db_backup.Redis.Lines.{IsArg, is_graphic, plain-IsArg, split_redis_args-join, join-more}
use db_backup.Redis.Data.{Command, Codec}
use db_backup.Redis.Session.{is_ignored}
use db_backup.Redis.Restore.{restore_line, restore_args}

join-head :
    (c : ℕ) (w : Bytes) (ts : List Bytes)
    → (back : Bytes) × (join ((c ∷ w) ∷ ts) (codes " ") ≡ c ∷ back)
unfolding join
join-head c w [] = (w, refl)
join-head c w (t ∷ ts) = (_, refl)

join-last :
    (t : Bytes) (ts : List Bytes)
    → All IsArg (t ∷ ts)
    → (front : Bytes) × (d : ℕ) × (join (t ∷ ts) (codes " ") ≡ front ++ d ∷ [])
      × (is_graphic d ≡ true)
unfolding join
join-last t [] (a, _) = (a.front, a.final, a.ends, a.graphic)
join-last t (u ∷ ts) (_, all) =
    let (front, d, e, g) = join-last u ts all in
    (
      t ++ b' ' ∷ front,
      d,
      join-more t u ts ∙ ap (λ r. t ++ b' ' ∷ r) e ∙ sym (append_assoc t (b' ' ∷ front) (d ∷ [])),
      g,
    )

join-one_line :
    (ts : List Bytes) → All IsArg ts → All (λ c. (c == 10) ≡ false) (join ts (codes " "))
unfolding join
join-one_line [] all = tt
join-one_line (t ∷ []) (a, _) = a.one_line
join-one_line (t ∷ u ∷ ts) (a, all) =
    All-append _ (t ++ codes " ") (join (u ∷ ts) (codes " "))
      (All-append _ t (codes " ") a.one_line (refl, tt)) (join-one_line (u ∷ ts) all)

is_space-graphic : (c : ℕ) → is_graphic c ≡ true → is_space c ≡ false
unfolding is_space
is_space-graphic c h = ground arith

-- A line that neither the scanner nor `TrimSpace` changes, and that is no comment.
pub record IsKept (l : Bytes) : Type 0 where
  pub front : Bytes
  pub final : ℕ
  pub ends : l ≡ front ++ final ∷ []
  pub graphic : is_graphic final ≡ true
  pub trimmed : trim_space l ≡ l
  pub regarded : is_ignored l ≡ false
  pub one_line : All (λ c. (c == 10) ≡ false) l

-- A verb: a printable word that does not begin as a comment does.
abbrev pub IsVerb : Bytes → Type 0
IsVerb [] = ⊥
IsVerb (c ∷ w) = IsPlain (c ∷ w) × ((c == b'#') ≡ false)

pub verb-IsArg : (verb : Bytes) → IsVerb verb → IsArg verb
verb-IsArg [] v = absurd v
verb-IsArg (c ∷ w) (p, _) = plain-IsArg c w p

join-IsKept :
    (verb : Bytes) (ts : List Bytes)
    → IsVerb verb
    → All IsArg ts
    → IsKept (join (verb ∷ ts) (codes " "))
join-IsKept [] ts v all = absurd v
join-IsKept (c ∷ w) ts ((p, ps), sharp) all =
    let args : All IsArg ((c ∷ w) ∷ ts) = (plain-IsArg c w (p, ps), all) in
    let (back, first) = join-head c w ts in
    let (front, d, last, g) = join-last (c ∷ w) ts args in
    record {
      front = front;
      final = d;
      ends = last;
      graphic = g;
      trimmed = trim_space-solid _ front back c d first last (solid c p) (is_space-graphic d g);
      regarded = ap is_ignored first ∙ sharp;
      one_line = join-one_line ((c ∷ w) ∷ ts) args;
    }
  where
    solid : (c : ℕ) → is_plain c ≡ true → is_space c ≡ false
    solid c h = is_space-graphic c (ground arith)

module _ (Score : Type 0) (codec : Codec Score) where
  pub record IsReadAs (l : Bytes) (command : Command Score) : Type 0 where
    pub kept : IsKept l
    pub verb : Bytes
    pub parts : List Bytes
    pub splits : split_redis_args l ≡ verb ∷ parts
    pub reads : restore_line Score codec (verb ∷ parts) ≡ some command

  pub line-IsReadAs :
      (verb : Bytes) (ts : List Bytes) (command : Command Score)
      → IsVerb verb
      → All IsArg ts
      → restore_args Score codec (to_upper verb) (map unquote_redis_arg ts) ≡ some command
      → IsReadAs (join (verb ∷ ts) (codes " ")) command
  unfolding restore_line
  line-IsReadAs verb ts command v all e = record {
    kept = join-IsKept verb ts v all;
    verb = verb;
    parts = ts;
    splits = split_redis_args-join (verb ∷ ts) (verb-IsArg verb v, all);
    reads = e;
  }
