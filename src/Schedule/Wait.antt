-- ===== src/Schedule/Wait.antt =====
-- `nextAnchoredDuration` gives the wait for the first point of the grids of its anchors.
use db_backup.Base.{
  ap, none, ◌∙◌, some, Option, ltb_ℤ, eqb_ℤ, sub_ℕ, wrap64, sub64, sub64_nonneg, rem_ℤ, ◌+ℤ◌,
  if◌then◌else◌, ℤ, ℕ, suc, ◌+◌, ◌*◌, ◌-◌, ◌%◌, ◌≤◌, ◌<◌, ◌≡◌, refl, sym, subst, true, false, List,
  [], ◌∷◌, ◌⊎◌, inl, inr, In, All, All_get, All-intro, arith, ltb, leb, ◌==◌, Bool-cases, pos, ◌||◌,
}
use Prim.Native.Nat.{◌^◌}
use native.Mathlib.Nat.{mod-lt}
use db_backup.Clock.{Time, minute}
use db_backup.Schedule.Grid.{
  minutes_duration, grid_rem, anchor_wait, anchored_scan, next_anchored_duration,
}
use db_backup.Schedule.Rounds.{plain_rem, plain_wait, OnGrid, plain_wait-IsFirst}

-- A remainder made non-negative.
abbrev lift : ℤ → ℤ → ℤ
lift step r = if ltb_ℤ r (pos 0) then wrap64 (r +ℤ step) else r

module _ (step now epoch : ℕ) (up : 0 < step) (fits : step < 2 ^ 63) where
  plain_rem-lt : plain_rem step now epoch < step
  unfolding plain_rem
  plain_rem-lt = ground (arith, mod-lt (now - epoch) up, mod-lt (epoch - now) up)

  rem-behind :
      leb epoch now ≡ false → rem_ℤ (sub_ℕ now epoch) (pos step) ≡ sub_ℕ 0 ((epoch - now) % step)
  unfolding rem_ℤ
  rem-behind future =
      let same : suc (epoch - now - 1) ≡ epoch - now = ground arith in
      let whole : step + 0 ≡ step = omega arith in rw (future, whole, same) refl

  lift-behind :
      (r : ℕ) → r < step → lift (pos step) (sub_ℕ 0 r) ≡ pos (if r == 0 then 0 else step - r)
  unfolding wrap64 ◌+ℤ◌
  lift-behind r low = ground arith

  grid_rem-plain : grid_rem (pos step) now epoch ≡ pos (plain_rem step now epoch)
  unfolding grid_rem plain_rem rem_ℤ
  grid_rem-plain = elim (Bool-cases (leb epoch now)) [
    | inl past ↦ rw past (ground (arith, mod-lt (now - epoch) up))
    | inr future ↦
        ap (lift (pos step)) (rem-behind future)
        ∙ (lift-behind ((epoch - now) % step) (mod-lt (epoch - now) up) ∙ rw (future, plain_rem))
  ]

  wait-rem :
      (r : ℕ)
      → r < step
      → (if eqb_ℤ (pos r) (pos 0) then pos step else sub64 (pos step) (pos r))
        ≡ pos (if r == 0 then step else step - r)
  wait-rem r low = rw (sub64_nonneg step r (omega arith) fits) (ground arith)

  anchor_wait-plain : anchor_wait (pos step) now epoch ≡ pos (plain_wait step now epoch)
  unfolding anchor_wait plain_wait
  anchor_wait-plain =
      ap (λ r. if eqb_ℤ r (pos 0) then pos step else sub64 (pos step) r) grid_rem-plain
      ∙ wait-rem (plain_rem step now epoch) plain_rem-lt

module _ (date_at : Time → ℕ → ℕ) (step : ℕ) (now : Time) where
  abbrev wait : ℕ → ℕ
  wait a = plain_wait step now.instant (date_at now a)

  -- The loop over the anchors.
  unfoldable plain_scan : List ℕ → ℕ → ℕ
  plain_scan [] best = best
  plain_scan (a ∷ anchors) best =
      plain_scan anchors (if best == 0 || ltb (wait a) best then wait a else best)

  scan-plain :
      (anchors : List ℕ) (best : ℕ)
      → 0 < step
      → step < 2 ^ 63
      → anchored_scan date_at (pos step) now anchors (pos best) ≡ pos (plain_scan anchors best)
  unfolding anchored_scan plain_scan
  scan-plain [] best up fits = refl
  scan-plain (a ∷ anchors) best up fits =
      ap
        (λ d.
          anchored_scan date_at (pos step) now anchors
            (if eqb_ℤ (pos best) (pos 0) || ltb_ℤ d (pos best) then d else pos best))
        (anchor_wait-plain step now.instant (date_at now a) up fits)
      ∙ ap (anchored_scan date_at (pos step) now anchors) (chosen (wait a))
      ∙ scan-plain anchors _ up fits
    where
      chosen :
          (w : ℕ)
          → (if eqb_ℤ (pos best) (pos 0) || ltb_ℤ (pos w) (pos best) then pos w else pos best)
            ≡ pos (if best == 0 || ltb w best then w else best)
      chosen w = ground arith

  -- The least wait of the anchors and of the least wait so far.
  abbrev Least : List ℕ → ℕ → ℕ → Type 0
  Least anchors best r =
      ((r ≡ best) ⊎ ((a : ℕ) × In a anchors × (r ≡ wait a)))
      × (r ≤ best)
      × All (λ a. r ≤ wait a) anchors

  scan-Least :
      (anchors : List ℕ) (best : ℕ)
      → 0 < step
      → 0 < best
      → Least anchors best (plain_scan anchors best)
  unfolding plain_scan
  scan-Least [] best p b = (inl refl, omega arith, tt)
  scan-Least (a ∷ rest) best p b =
      let up : 0 < wait a = (plain_wait-IsFirst step now.instant (date_at now a) p).0 in
      elim (Bool-cases (ltb (wait a) best)) [
        | inl better ↦
            let test : (best == 0 || ltb (wait a) best) ≡ true = ground arith in
            let goes : plain_scan (a ∷ rest) best ≡ plain_scan rest (wait a) =
              rw (test, plain_scan) in
            let (from, low, all) = scan-Least rest (wait a) p up in
            subst (Least (a ∷ rest) best) (sym goes) (
              elim from [ inl same ↦ inr (a, inl refl, same) | inr (c, i, e) ↦ inr (c, inr i, e) ],
              ground arith,
              (low, all),
            )
        | inr worse ↦
            let test : (best == 0 || ltb (wait a) best) ≡ false = ground arith in
            let goes : plain_scan (a ∷ rest) best ≡ plain_scan rest best = rw (test, plain_scan) in
            let (from, low, all) = scan-Least rest best p b in
            subst (Least (a ∷ rest) best) (sym goes) (
              elim from [ inl same ↦ inl same | inr (c, i, e) ↦ inr (c, inr i, e) ],
              low,
              (ground arith, all),
            )
      ]

  -- A wait for the first instant that lies on the grid of any anchor.
  abbrev pub IsFirstPoint : List ℕ → ℕ → Type 0
  IsFirstPoint anchors d =
      (0 < d)
      × (d ≤ step)
      × ((a : ℕ) × In a anchors × OnGrid step (date_at now a) (now.instant + d))
      × All (λ a. (c : ℕ) → 0 < c → c < d → OnGrid step (date_at now a) (now.instant + c) → ⊥)
          anchors

  first_of_least :
      (anchors : List ℕ) (d : ℕ)
      → 0 < step
      → ((a : ℕ) × In a anchors × (d ≡ wait a))
      → All (λ a. d ≤ wait a) anchors
      → IsFirstPoint anchors d
  first_of_least anchors d p (a, i, e) all =
      let (up, within, on, none_before) = plain_wait-IsFirst step now.instant (date_at now a) p in
      (
        rw e up,
        rw e within,
        (a, i, rw e on),
        All-intro _ anchors (λ b j c low high.
            (plain_wait-IsFirst step now.instant (date_at now b) p).3 c low
              (omega (arith, All_get _ anchors all j))),
      )

module _ (date_at : Time → ℕ → ℕ) (now : Time) where
  abbrev scan_by : List ℕ → ℤ → Option ℤ
  scan_by anchors step =
      if eqb_ℤ step (pos 0) then none else some (anchored_scan date_at step now anchors (pos 0))

  duration-scan_by :
      (a : ℕ) (rest : List ℕ) (n : ℕ)
      → 0 < n
      → next_anchored_duration date_at (a ∷ rest) (pos n) now
        ≡ scan_by (a ∷ rest) (minutes_duration (pos n))
  unfolding next_anchored_duration
  duration-scan_by a rest n h =
      let given : ltb 0 n ≡ true = ground arith in rw (given, next_anchored_duration)

  scan_by-plain :
      (anchors : List ℕ) (step : ℕ)
      → 0 < step
      → step < 2 ^ 63
      → scan_by anchors (pos step) ≡ some (pos (plain_scan date_at step now anchors 0))
  scan_by-plain anchors step up fits =
      let nonzero : (step + 0 == 0) ≡ false = ground arith in
      rw nonzero (ap some (scan-plain date_at step now anchors 0 up fits))

minutes_duration-fits : (n : ℕ) → n * minute < 2 ^ 63 → minutes_duration (pos n) ≡ pos (n * minute)
unfolding minutes_duration wrap64
minutes_duration-fits n h = ground arith

-- With anchors and a positive interval whose nanoseconds fit into 64 bits, the wait is positive and no
-- longer than the interval, and it ends at the first instant behind `now` that lies on the grid of an
-- anchor: on one of the list, with no point of any anchor of the list in between. The grid of an anchor
-- goes through its minute of the day of `now`, wherever the location of `now` puts that minute.
pub next_anchored_duration_first :
    (date_at : Time → ℕ → ℕ) (a : ℕ) (rest : List ℕ) (n : ℕ) (now : Time)
    → 0 < n
    → n * minute < 2 ^ 63
    → (d : ℕ) × (next_anchored_duration date_at (a ∷ rest) (pos n) now ≡ some (pos d))
      × IsFirstPoint date_at (n * minute) now (a ∷ rest) d
unfolding plain_scan
next_anchored_duration_first date_at a rest n now h fits =
    let step = n * minute in
    let p : 0 < step = omega arith in
    let w = plain_wait step now.instant (date_at now a) in
    let up = (plain_wait-IsFirst step now.instant (date_at now a) p).0 in
    let (from, low, all) = scan-Least date_at step now rest w p up in
    (
      plain_scan date_at step now rest w,
      duration-scan_by date_at now a rest n h
          ∙ (ap (scan_by date_at now (a ∷ rest)) (minutes_duration-fits n fits)
              ∙ scan_by-plain date_at now (a ∷ rest) step p fits),
      first_of_least date_at step now (a ∷ rest) _ p
          (elim from [ inl same ↦ (a, inl refl, same) | inr (c, i, e) ↦ (c, inr i, e) ]) (low, all),
    )
