-- ===== src/Cron/Satisfy.antt =====
-- A field that passes validation can match: the two tests agree on what an expression means.
use Prim.Native.Nat.{◌^◌}
use db_backup.Base.{
  ℕ, ◌≤◌, ◌<◌, ◌≡◌, ◌≢◌, refl, Bool, true, false, List, [], ◌∷◌, Option, none, some, Bytes,
  bytes_eq, ◌∙◌, ℤ, pos, negsuc, eqb_ℤ, arith, Bool-cases, Option-cases, inl, inr, sub64,
  sub64_nonneg, rem_ℤ, any_of, All,
}
use mathlib.Core.Bool.{false≢true}
use db_backup.Text.{cut, split, contains_byte, atoi}
use db_backup.Retention.Policy.{is_positive}
use db_backup.Cron.Field.{
  star, has_quote, parse_range, step_match, cron_range_match, value_match, atom_match, field_body,
  field_match,
}
use db_backup.Cron.Commas.{range_twin, split_unquoted}
use db_backup.Cron.Validate.{
  in_bounds, valid_step, valid_range, valid_value, validate_cron_atom, valid_parts, valid_bytes,
  validate_cron_field,
}

-- The characters that validation lets through are no quotes.
valid_lacks : (s : Bytes) (q : ℕ) → q < 42 → valid_bytes s ≡ true → contains_byte s q ≡ false
unfolding valid_bytes contains_byte
valid_lacks [] q small h = refl
valid_lacks (c ∷ s) q small h = ground (arith, valid_lacks s q)

quote_free : (s : Bytes) → valid_bytes s ≡ true → has_quote s ≡ false
unfolding has_quote
quote_free s h = rw (valid_lacks s 34 (omega arith) h, valid_lacks s 39 (omega arith) h)

split-ne-nil : (sep : ℕ) (s : Bytes) → split s sep ≢ []
unfolding split
split-ne-nil sep [] e = cc
split-ne-nil sep (c ∷ s) e = ground arith

module _ (min max : ℕ) (order : min ≤ max) (small : max < 2 ^ 63) where
  -- The distance of a value from itself is a multiple of every step.
  same_rem :
      (n : ℕ) (step : ℤ) → n ≤ max → eqb_ℤ (rem_ℤ (sub64 (pos n) (pos n)) step) (pos 0) ≡ true
  unfolding rem_ℤ
  same_rem n step h = rw (sub64_nonneg n n (omega arith) (omega arith)) (ground arith)

  bounds_pos : (n : ℤ) → in_bounds min max n ≡ true → (m : ℕ) × (n ≡ pos m) × (min ≤ m) × (m ≤ max)
  unfolding in_bounds
  bounds_pos (pos m) h = (m, refl, ground arith, ground arith)
  bounds_pos (negsuc m) h = absurd (ground arith)

  abbrev Hits : (ℕ → Bool) → Type 0
  Hits p = (v : ℕ) × (min ≤ v) × (v ≤ max) × (p v ≡ true)

  step-Hits :
      (base text : Bytes)
      → valid_step min max base text ≡ true
      → Hits (λ v. step_match v min base text)
  unfolding valid_step step_match
  step-Hits base text h = elim (Bool-cases (bytes_eq text [])) [
    | inl blank ↦ absurd (false≢true (rw (blank, valid_step) at h))
    | inr there ↦ elim (Option-cases (atoi text)) [
      | inl bad ↦ absurd (false≢true (rw (there, bad, valid_step) at h))
      | inr (step, e) ↦ elim (Bool-cases (is_positive step)) [
        | inr low ↦ absurd (false≢true (rw (there, e, low, valid_step) at h))
        | inl up ↦ elim (Bool-cases (bytes_eq base star)) [
          | inl all ↦
              (min, omega arith, order, rw (e, up, all, step_match) (same_rem min step order))
          | inr from ↦ elim (Option-cases (atoi base)) [
            | inl bad ↦ absurd (false≢true (rw (there, e, up, from, bad, valid_step) at h))
            | inr (start, f) ↦
                let (m, same, low, high) =
                  bounds_pos start (rw (there, e, up, from, f, valid_step) at h) in
                (
                  m,
                  low,
                  high,
                  rw (e, up, from, f, same, step_match) (ground (arith, same_rem m step high)),
                )
          ]
        ]
      ]
    ]
  ]

  range-Hits :
      (r : Option (ℤ × ℤ)) → valid_range min max r ≡ true → Hits (λ v. cron_range_match v min r)
  unfolding valid_range cron_range_match
  range-Hits none h = absurd (false≢true h)
  range-Hits (some (pos a, pos b)) h = (a, ground arith, ground arith, ground arith)
  range-Hits (some (pos a, negsuc b)) h = absurd (ground arith)
  range-Hits (some (negsuc a, b)) h = absurd (ground arith)

  value-Hits : (s : Bytes) → valid_value min max s ≡ true → Hits (λ v. value_match v min s)
  unfolding valid_value value_match
  value-Hits s h = elim (Option-cases (atoi s)) [
    | inl bad ↦ absurd (false≢true (rw (bad, valid_value) at h))
    | inr (n, e) ↦
        let (m, same, low, high) = bounds_pos n (rw (e, valid_value) at h) in
        (m, low, high, rw (e, same, value_match) (ground arith))
  ]

  atom-Hits : (s : Bytes) → validate_cron_atom min max s ≡ true → Hits (λ v. atom_match v min s)
  unfolding validate_cron_atom atom_match
  atom-Hits s h = elim (Option-cases (cut s b'/')) [
    | inr ((base, text), e) ↦
        let (v, low, high, m) = step-Hits base text (rw (e, validate_cron_atom) at h) in
        (v, low, high, rw (e, atom_match) m)
    | inl e ↦ elim (Bool-cases (contains_byte s b'-')) [
      | inl dash ↦
          let (v, low, high, m) =
            range-Hits (parse_range s) (rw (e, dash, validate_cron_atom) at h) in
          (v, low, high, rw (e, dash, atom_match) (range_twin v min s ∙ m))
      | inr plain ↦
          let (v, low, high, m) = value-Hits s (rw (e, plain, validate_cron_atom) at h) in
          (v, low, high, rw (e, plain, atom_match) m)
    ]
  ]

  -- A part without a comma or a quote goes through the test of an atom.
  atom_field :
      (v : ℕ) (g : Bytes → Bool) (s : Bytes)
      → has_quote s ≡ false
      → contains_byte s b',' ≡ false
      → atom_match v min s ≡ true
      → field_body v min g s ≡ true
  unfolding field_body
  atom_field v g s q c m = ground arith

  parts_hit :
      (ps : List Bytes)
      → All (λ p. has_quote p ≡ false) ps
      → ps ≢ []
      → valid_parts min max ps ≡ true
      → Hits (λ v. any_of (field_body v min (λ _. false)) ps)
  unfolding valid_parts
  parts_hit [] q n h = absurd (n refl)
  parts_hit (p ∷ ps) (q, _) n h =
      let valid : validate_cron_atom min max p ≡ true = ground arith in
      let plain : contains_byte p b',' ≡ false = ground arith in
      let (v, low, high, m) = atom-Hits p valid in
      (v, low, high, rw (atom_field v (λ _. false) p q plain m))

-- A field that `ValidateCron` accepts matches some value between its bounds, so an accepted expression
-- is impossible only through the combination of its fields.
pub validate_cron_field-satisfiable :
    (min max : ℕ) (s : Bytes)
    → min ≤ max
    → max < 2 ^ 63
    → validate_cron_field min max s ≡ true
    → (v : ℕ) × (min ≤ v) × (v ≤ max) × (field_match v min s ≡ true)
unfolding validate_cron_field field_match
validate_cron_field-satisfiable min max s order small h = elim (Bool-cases (bytes_eq s star)) [
  | inl all ↦ (min, omega arith, order, all_match all)
  | inr some_only ↦ elim (Bool-cases (contains_byte s b',')) [
    | inl list ↦
        let (v, low, high, m) =
          parts_hit min max order small (split s b',') (split_unquoted s quotes)
            (split-ne-nil b',' s) (listed some_only list) in
        (v, low, high, list_match v some_only list m)
    | inr single ↦
        let (v, low, high, m) = atom-Hits min max order small s (alone some_only single) in
        (v, low, high, atom_field min max order small v _ s quotes single m)
  ]
]
  where
    chars : valid_bytes s ≡ true
    chars = ground arith

    quotes : has_quote s ≡ false
    quotes = quote_free s chars

    all_match :
        bytes_eq s star ≡ true → field_body min min (field_body min min (λ _. false)) s ≡ true
    all_match all = rw (all, field_body)

    listed :
        bytes_eq s star ≡ false
        → contains_byte s b',' ≡ true
        → valid_parts min max (split s b',') ≡ true
    listed some_only list = ground arith

    alone :
        bytes_eq s star ≡ false → contains_byte s b',' ≡ false → validate_cron_atom min max s ≡ true
    alone some_only single = ground arith

    list_match :
        (v : ℕ)
        → bytes_eq s star ≡ false
        → contains_byte s b',' ≡ true
        → any_of (field_body v min (λ _. false)) (split s b',') ≡ true
        → field_body v min (field_body v min (λ _. false)) s ≡ true
    list_match v some_only list m = rw (some_only, quotes, list, field_body) m
