-- ===== src/Clock/ReadBack.antt =====
-- `%d` of a number and `strconv.ParseInt` of the text.
use db_backup.Base.{
  ℕ, zero, suc, ◌+◌, ◌/◌, ◌%◌, ◌^◌, ◌<◌, ◌≡◌, refl, sym, ap, ◌∙◌, true, false, [], ◌∷◌, some, Bytes,
  ◌==◌, All, arith, pos, Bool-cases, subst, inl, inr,
}
use db_backup.Text.{is_digit, digits_value, magnitude, positive, atoi}
use db_backup.Clock.{decimal, decimal_loop}

digit_text : (n : ℕ) → is_digit (b'0' + n % 10) ≡ true
unfolding is_digit
digit_text n = ground arith

digits_value-step :
    (n : ℕ) (out : Bytes) → digits_value (n / 10) ((b'0' + n % 10) ∷ out) ≡ digits_value n out
unfolding digits_value
digits_value-step n out = rw (digit_text n) (ap (λ k. digits_value k out) (omega arith))

digits_value-decimal_loop :
    (fuel n : ℕ) (out : Bytes)
    → n < fuel
    → digits_value 0 (decimal_loop fuel n out) ≡ digits_value n out
unfolding decimal_loop
digits_value-decimal_loop zero n out h = ground arith
digits_value-decimal_loop (suc fuel) n out h = elim (Bool-cases (n == 0)) [
  | inl e ↦ rw (e, zero_of n e) refl
  | inr e ↦
      rw e
        (digits_value-decimal_loop fuel (n / 10) _ (smaller n fuel h e) ∙ digits_value-step n out)
]
  where
    zero_of : (n : ℕ) → (n == 0) ≡ true → n ≡ 0
    zero_of n e = ground arith

    smaller : (n fuel : ℕ) → n < suc fuel → (n == 0) ≡ false → n / 10 < fuel
    smaller n fuel h e = ground arith

abbrev pub IsDigits : Bytes → Type 0
IsDigits s = All (λ c. is_digit c ≡ true) s

decimal_loop-IsDigits :
    (fuel n : ℕ) (out : Bytes) → IsDigits out → IsDigits (decimal_loop fuel n out)
unfolding decimal_loop
decimal_loop-IsDigits zero n out h = h
decimal_loop-IsDigits (suc fuel) n out h = elim (Bool-cases (n == 0)) [
  | inl e ↦ rw e h
  | inr e ↦ rw e (decimal_loop-IsDigits fuel (n / 10) _ (digit_text n, h))
]

pub decimal-IsDigits : (n : ℕ) → IsDigits (decimal n)
unfolding decimal is_digit
decimal-IsDigits n = elim (Bool-cases (n == 0)) [
  | inl e ↦ rw e (refl, tt)
  | inr e ↦ rw e (decimal_loop-IsDigits (n + 1) n [] tt)
]

pub digits_value-decimal : (n : ℕ) → digits_value 0 (decimal n) ≡ some n
unfolding decimal digits_value
digits_value-decimal n = elim (Bool-cases (n == 0)) [
  | inl e ↦ rw e (ap some (ground (arith, e)))
  | inr e ↦ rw e (digits_value-decimal_loop (n + 1) n [] (omega arith))
]

decimal_loop-filled :
    (fuel n c : ℕ) (s : Bytes) → (d : ℕ) × (t : Bytes) × (decimal_loop fuel n (c ∷ s) ≡ d ∷ t)
unfolding decimal_loop
decimal_loop-filled zero n c s = (c, s, refl)
decimal_loop-filled (suc fuel) n c s = elim (Bool-cases (n == 0)) [
  | inl e ↦ rw e (c, s, refl)
  | inr e ↦ rw e (decimal_loop-filled fuel (n / 10) _ (c ∷ s))
]

decimal_loop-first :
    (fuel n : ℕ)
    → n < fuel
    → (n == 0) ≡ false
    → (d : ℕ) × (t : Bytes) × (decimal_loop fuel n [] ≡ d ∷ t)
unfolding decimal_loop
decimal_loop-first zero n h e = ground arith
decimal_loop-first (suc fuel) n h e = rw e (decimal_loop-filled fuel (n / 10) _ [])

pub decimal-filled : (n : ℕ) → (d : ℕ) × (t : Bytes) × (decimal n ≡ d ∷ t)
unfolding decimal
decimal-filled n = elim (Bool-cases (n == 0)) [
  | inl e ↦ rw e (b'0', [], refl)
  | inr e ↦ rw e (decimal_loop-first (n + 1) n (omega arith) e)
]

parse_int-digits :
    (c : ℕ) (s : Bytes) (n : ℕ)
    → is_digit c ≡ true
    → digits_value 0 (c ∷ s) ≡ some n
    → n < 2 ^ 63
    → atoi (c ∷ s) ≡ some (pos n)
unfolding atoi positive magnitude is_digit
parse_int-digits c s n d v h = ground arith

-- A number in the range of 64 bits is read back from its decimal text.
pub atoi-decimal : (n : ℕ) → n < 2 ^ 63 → atoi (decimal n) ≡ some (pos n)
atoi-decimal n h =
    let (c, s, e) = decimal-filled n in
    ap atoi e
    ∙ parse_int-digits c s n (first c s (subst IsDigits e (decimal-IsDigits n)))
        (ap (digits_value 0) (sym e) ∙ digits_value-decimal n) h
  where
    first : (c : ℕ) (s : Bytes) → IsDigits (c ∷ s) → is_digit c ≡ true
    first c s d = d.0
