-- ===== src/Cron/Commas.antt =====
-- Lists in a cron field: the parts hold no comma, so the two-level definitions of the field tests
-- satisfy the recursion of the source; and the two copies of the test agree.
use db_backup.Base.{
  ℕ, ◌≡◌, refl, ◌∙◌, Bool, false, List, [], ◌∷◌, Bytes, any_of, ◌==◌, All, inl, inr, arith,
  Bool-cases, Option-cases,
}
use db_backup.Text.{split, contains_byte, cut, atoi}
use db_backup.Cron.Field.{
  parse_range, step_match, range_match, value_match, atom_match, cron_step_match, cron_range_match,
  cron_value_match, cron_atom_match, has_quote, field_body, field_match, cron_field_body,
  cron_field_match,
}

head_lacks :
    (sep c : ℕ) (ps : List Bytes)
    → (c == sep) ≡ false
    → All (λ p. contains_byte p sep ≡ false) ps
    → All
        (λ p. contains_byte p sep ≡ false)
        (elim ps [ [] ↦ (c ∷ []) ∷ [] | p ∷ qs ↦ (c ∷ p) ∷ qs ])
unfolding contains_byte
head_lacks sep c [] h a = (ground arith, tt)
head_lacks sep c (p ∷ ps) h (x, a) = (ground arith, a)

-- No part of a split holds the separator.
pub split_lacks : (sep : ℕ) (s : Bytes) → All (λ p. contains_byte p sep ≡ false) (split s sep)
unfolding split contains_byte
split_lacks sep [] = (refl, tt)
split_lacks sep (c ∷ s) = elim (Bool-cases (c == sep)) [
  | inl here ↦ rw here (refl, split_lacks sep s)
  | inr there ↦ rw there (head_lacks sep c (split s sep) there (split_lacks sep s))
]

any_of_ext :
    (f g : Bytes → Bool) (ps : List Bytes) → All (λ p. f p ≡ g p) ps → any_of f ps ≡ any_of g ps
any_of_ext f g [] a = refl
any_of_ext f g (p ∷ ps) (e, a) = rw (e, any_of_ext f g ps a)

All-imp : {P Q : Bytes → Type 0} (ps : List Bytes) → ((p : Bytes) → P p → Q p) → All P ps → All Q ps
All-imp [] f a = tt
All-imp (p ∷ ps) f (x, a) = (f p x, All-imp ps f a)

module _ (val min : ℕ) where
  -- Without a comma the calls on parts do not matter.
  body_plain :
      (f g : Bytes → Bool) (s : Bytes)
      → contains_byte s b',' ≡ false
      → field_body val min f s ≡ field_body val min g s
  unfolding field_body
  body_plain f g s h = rw h

  cron_body_plain :
      (f g : Bytes → Bool) (s : Bytes)
      → contains_byte s b',' ≡ false
      → cron_field_body val min f s ≡ cron_field_body val min g s
  unfolding cron_field_body
  cron_body_plain f g s h = rw h

  -- The body depends only on what the calls on the parts give.
  body_ext :
      (f g : Bytes → Bool) (s : Bytes)
      → All (λ p. f p ≡ g p) (split s b',')
      → field_body val min f s ≡ field_body val min g s
  unfolding field_body
  body_ext f g s a = rw (any_of_ext f g (split s b',') a)

  cron_body_ext :
      (f g : Bytes → Bool) (s : Bytes)
      → All (λ p. f p ≡ g p) (split s b',')
      → cron_field_body val min f s ≡ cron_field_body val min g s
  unfolding cron_field_body
  cron_body_ext f g s a = rw (any_of_ext f g (split s b',') a)

  -- `fieldMatch` satisfies its own recursion: on a list it is the disjunction of itself on the parts.
  pub field_match_recursion :
      (s : Bytes) → field_match val min s ≡ field_body val min (field_match val min) s
  unfolding field_match
  field_match_recursion s = body_ext _ _ s (
      All-imp (split s b',') (λ p h. body_plain (λ _. false) (field_body val min (λ _. false)) p h)
        (split_lacks b',' s))

  pub cron_field_match_recursion :
      (s : Bytes)
      → cron_field_match val min s ≡ cron_field_body val min (cron_field_match val min) s
  unfolding cron_field_match
  cron_field_match_recursion s = cron_body_ext _ _ s (
      All-imp (split s b',')
        (λ p h. cron_body_plain (λ _. false) (cron_field_body val min (λ _. false)) p h)
        (split_lacks b',' s))

  step_twin : (base text : Bytes) → step_match val min base text ≡ cron_step_match val min base text
  unfolding step_match cron_step_match
  step_twin base text = refl

  value_twin : (s : Bytes) → value_match val min s ≡ cron_value_match val min s
  unfolding value_match cron_value_match
  value_twin s = refl

  -- The range that the scheduler takes apart itself is the one that `parseRange` reads.
  pub range_twin : (s : Bytes) → range_match val min s ≡ cron_range_match val min (parse_range s)
  unfolding range_match cron_range_match parse_range
  range_twin s = elim (Option-cases (cut s b'-')) [
    | inl n ↦ rw (n, range_match, parse_range)
    | inr ((lo, hi), e) ↦ elim (Option-cases (atoi lo)) [
      | inl n ↦ rw (e, n, range_match, parse_range)
      | inr (a, l) ↦ elim (Option-cases (atoi hi)) [
        | inl n ↦ rw (e, l, n, range_match, parse_range)
        | inr (b, h) ↦ rw (e, l, h, range_match, parse_range)
      ]
    ]
  ]

  atom_twin : (s : Bytes) → atom_match val min s ≡ cron_atom_match val min s
  unfolding atom_match cron_atom_match
  atom_twin s = elim (Option-cases (cut s b'/')) [
    | inr ((base, text), e) ↦ rw (e, atom_match, cron_atom_match) (step_twin base text)
    | inl e ↦ elim (Bool-cases (contains_byte s b'-')) [
      | inl dash ↦ rw (e, dash, atom_match, cron_atom_match) (range_twin s)
      | inr plain ↦ rw (e, plain, atom_match, cron_atom_match) (value_twin s)
    ]
  ]

  body_twin :
      (f : Bytes → Bool) (s : Bytes)
      → has_quote s ≡ false
      → field_body val min f s ≡ cron_field_body val min f s
  unfolding field_body cron_field_body
  body_twin f s h = rw (h, atom_twin s)

head_keeps :
    (q c : ℕ) (ps : List Bytes)
    → (c == q) ≡ false
    → All (λ p. contains_byte p q ≡ false) ps
    → All (λ p. contains_byte p q ≡ false) (elim ps [ [] ↦ (c ∷ []) ∷ [] | p ∷ qs ↦ (c ∷ p) ∷ qs ])
unfolding contains_byte
head_keeps q c [] h a = (ground arith, tt)
head_keeps q c (p ∷ ps) h (x, a) = (ground arith, a)

-- A byte that a text lacks stands in none of its parts.
pub split_keeps :
    (sep q : ℕ) (s : Bytes)
    → contains_byte s q ≡ false
    → All (λ p. contains_byte p q ≡ false) (split s sep)
unfolding split contains_byte
split_keeps sep q [] h = (refl, tt)
split_keeps sep q (c ∷ s) h =
    let here : (c == q) ≡ false = ground arith in
    let rest : contains_byte s q ≡ false = ground arith in
    elim (Bool-cases (c == sep)) [
      | inl cut_here ↦ rw cut_here (refl, split_keeps sep q s rest)
      | inr not_here ↦ rw not_here (head_keeps q c (split s sep) here (split_keeps sep q s rest))
    ]

quotes_of_parts :
    (ps : List Bytes)
    → All (λ p. contains_byte p 34 ≡ false) ps
    → All (λ p. contains_byte p 39 ≡ false) ps
    → All (λ p. has_quote p ≡ false) ps
unfolding has_quote
quotes_of_parts [] a b = tt
quotes_of_parts (p ∷ ps) (x, a) (y, b) = (ground arith, quotes_of_parts ps a b)

pub split_unquoted :
    (s : Bytes) → has_quote s ≡ false → All (λ p. has_quote p ≡ false) (split s b',')
unfolding has_quote
split_unquoted s h =
    quotes_of_parts (split s b',') (split_keeps b',' 34 s (ground arith))
      (split_keeps b',' 39 s (ground arith))

-- The test of the maintenance schedule and that of the job schedule agree on a field without quotes.
pub field_match-cron_field_match :
    (val min : ℕ) (s : Bytes)
    → has_quote s ≡ false
    → field_match val min s ≡ cron_field_match val min s
unfolding field_match cron_field_match
field_match-cron_field_match val min s h =
    body_twin val min (field_body val min (λ _. false)) s h
    ∙ cron_body_ext val min (field_body val min (λ _. false)) (cron_field_body val min (λ _. false))
        s (All-imp (split s b',') (λ p q. body_twin val min (λ _. false) p q) (split_unquoted s h))
