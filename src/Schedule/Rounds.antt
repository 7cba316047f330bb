-- ===== src/Schedule/Rounds.antt =====
-- The points of a grid behind a time, for `nextAnchoredDuration` of src/internal/scheduler/cron.go.
use db_backup.Base.{
  if◌then◌else◌, ℕ, zero, suc, ◌+◌, ◌*◌, ◌-◌, ◌/◌, ◌%◌, ◌≤◌, ◌<◌, ◌≡◌, sym, ◌⊎◌, inl, inr, arith,
  leb, ◌==◌, Bool-cases,
}
use native.Mathlib.Nat.{mul-le-mul_right, mod-lt, div-add-mod'}

-- The remainder and the wait as natural numbers, without a width.
unfoldable pub plain_rem : ℕ → ℕ → ℕ → ℕ
plain_rem step now epoch =
    if leb epoch now
    then (now - epoch) % step
    else (let r = (epoch - now) % step in if r == 0 then 0 else step - r)

unfoldable pub plain_wait : ℕ → ℕ → ℕ → ℕ
unfolding plain_rem
plain_wait step now epoch = let r = plain_rem step now epoch in if r == 0 then step else step - r

-- A point of the grid through `e`, which extends in both directions.
abbrev pub OnGrid : ℕ → ℕ → ℕ → Type 0
OnGrid step e x = (k : ℕ) × ((x ≡ e + k * step) ⊎ (x + k * step ≡ e))

-- No multiple lies strictly between two neighbouring ones.
between : (step q k : ℕ) → q * step < k * step → k * step < suc q * step → ⊥
between step q k low high = elim (Bool-cases (leb k q)) [
  | inl le ↦ let h : k ≤ q = ground arith in omega (arith, mul-le-mul_right step h)
  | inr gt ↦ let h : suc q ≤ k = ground arith in omega (arith, mul-le-mul_right step h)
]

-- The first point of a grid behind a time, and how far it is.
abbrev pub IsFirst : ℕ → ℕ → ℕ → ℕ → Type 0
IsFirst step now epoch w =
    (0 < w)
    × (w ≤ step)
    × OnGrid step epoch (now + w)
    × ((d : ℕ) → 0 < d → d < w → OnGrid step epoch (now + d) → ⊥)

wait_ahead :
    (step now epoch q r : ℕ)
    → epoch ≤ now
    → now - epoch ≡ q * step + r
    → r < step
    → IsFirst step now epoch (step - r)
wait_ahead step now epoch q r h e small =
    let next : suc q * step ≡ step + q * step = omega arith in
    (
      omega arith,
      omega arith,
      (suc q, inl (omega (arith, next))),
      λ d up low on. off d up low on.0 on.1,
    )
  where
    off :
        (d : ℕ)
        → 0 < d
        → d < step - r
        → (k : ℕ) → (now + d ≡ epoch + k * step) ⊎ (now + d + k * step ≡ epoch)
        → ⊥
    off d up low k (inl on) =
        let next : suc q * step ≡ step + q * step = omega arith in
        between step q k (omega arith) (omega (arith, next))
    off d up low k (inr on) = omega arith

wait_behind :
    (step now epoch q r : ℕ)
    → now < epoch
    → epoch - now ≡ q * step + r
    → r < step
    → 0 < r
    → IsFirst step now epoch r
wait_behind step now epoch q r h e small some_rest =
    (omega arith, omega arith, (q, inr (omega arith)), λ d up low on. off d up low on.0 on.1)
  where
    off :
        (d : ℕ)
        → 0 < d
        → d < r
        → (k : ℕ) → (now + d ≡ epoch + k * step) ⊎ (now + d + k * step ≡ epoch)
        → ⊥
    off d up low k (inl on) = omega arith
    off d up low k (inr on) =
        let next : suc q * step ≡ step + q * step = omega arith in
        between step q k (omega arith) (omega (arith, next))

wait_whole :
    (step now epoch q : ℕ)
    → 0 < step
    → now < epoch
    → epoch - now ≡ suc q * step
    → IsFirst step now epoch step
wait_whole step now epoch q pos_step h e =
    let next : suc q * step ≡ step + q * step = omega arith in
    (pos_step, omega arith, (q, inr (omega (arith, next))), λ d up low on. off d up low on.0 on.1)
  where
    off :
        (d : ℕ)
        → 0 < d
        → d < step
        → (k : ℕ) → (now + d ≡ epoch + k * step) ⊎ (now + d + k * step ≡ epoch)
        → ⊥
    off d up low k (inl on) =
        let next : suc q * step ≡ step + q * step = omega arith in omega (arith, next)
    off d up low k (inr on) =
        let next : suc q * step ≡ step + q * step = omega arith in
        let later : suc k * step ≡ step + k * step = omega arith in
        between step k (suc q) (omega (arith, next)) (omega (arith, next, later))

module _ (step now epoch : ℕ) where
  ahead_value : epoch ≤ now → plain_wait step now epoch ≡ step - (now - epoch) % step
  unfolding plain_wait plain_rem
  ahead_value h = ground arith

  whole_value : now < epoch → (epoch - now) % step ≡ 0 → plain_wait step now epoch ≡ step
  unfolding plain_wait plain_rem
  whole_value h z = ground arith

  behind_value :
      now < epoch
      → 0 < (epoch - now) % step
      → (epoch - now) % step < step
      → plain_wait step now epoch ≡ (epoch - now) % step
  unfolding plain_wait plain_rem
  behind_value h up low = ground arith

  whole_rounds :
      (q : ℕ) → 0 < step → now < epoch → epoch - now ≡ q * step → IsFirst step now epoch step
  whole_rounds zero p h e = absurd (omega arith)
  whole_rounds (suc q) p h e = wait_whole step now epoch q p h e

  pub plain_wait-IsFirst : 0 < step → IsFirst step now epoch (plain_wait step now epoch)
  plain_wait-IsFirst h = elim (Bool-cases (leb epoch now)) [
    | inl past ↦
        let n = now - epoch in
        rw (ahead_value (ground arith)) (
          wait_ahead step now epoch (n / step) (n % step) (ground arith) (sym (div-add-mod' n step))
            (mod-lt n h))
    | inr future ↦
        let n = epoch - now in
        elim (Bool-cases ((epoch - now) % step == 0)) [
          | inl none_left ↦
              let z : (epoch - now) % step ≡ 0 = ground arith in
              rw (whole_value (ground arith) z)
                (whole_rounds (n / step) h (ground arith) (omega (arith, div-add-mod' n step)))
          | inr some_left ↦ rw (behind_value (ground arith) (ground arith) (mod-lt n h)) (
              wait_behind step now epoch (n / step) (n % step) (ground arith)
                (sym (div-add-mod' n step)) (mod-lt n h) (ground arith))
        ]
  ]
