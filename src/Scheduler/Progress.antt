-- ===== src/Scheduler/Progress.antt =====
-- A job that waits for a slot of src/internal/scheduler/jobs.go is not locked out.
use db_backup.Base.{
  ℕ, zero, suc, ◌+◌, ◌≤◌, ◌<◌, ◌≡◌, refl, sym, ap, subst, List, [], ◌∷◌, ◌++◌, append_assoc, length,
  length-append, arith, inl, inr, ◌⊎◌, Bool-cases, ltb,
}
use db_backup.Scheduler.Slots.{
  Phase, outside, waiting, running, tokens, tokens-append, acquire, finish, Pool, Next, moves,
  Reached, reached_lem,
}

-- Finitely many moves.
pub data Steps (capacity : ℕ) (s : Pool) : Pool → Type 0 where
  here : Steps capacity s s
  next : {t u : Pool} → Steps capacity s t → Next capacity t u → Steps capacity s u

-- Where a token is held, a job runs.
holder :
    (ps : List Phase)
    → 0 < tokens ps
    → (xs : List Phase) × (ys : List Phase) × (ps ≡ xs ++ running ∷ ys)
unfolding tokens
holder [] h = ground arith
holder (running ∷ ps) h = ([], ps, refl)
holder (outside ∷ ps) h =
    let (xs, ys, e) = holder ps h in (outside ∷ xs, ys, ap (λ l. outside ∷ l) e)
holder (waiting ∷ ps) h =
    let (xs, ys, e) = holder ps h in (waiting ∷ xs, ys, ap (λ l. waiting ∷ l) e)

abbrev pool : ℕ → List Phase → List Phase → Phase → Pool
pool n before after p = record { channel = n; jobs = before ++ p ∷ after }

-- The job behind `size` others runs.
abbrev pub RunsAt : ℕ → Pool → Type 0
RunsAt size t =
    (before : List Phase) × (after : List Phase) × (t.jobs ≡ before ++ running ∷ after)
    × (length before ≡ size)

take_slot :
    (capacity n : ℕ) (before after : List Phase)
    → n < capacity
    → Next capacity (pool n before after waiting) (pool (suc n) before after running)
take_slot capacity n before after h = moves n (suc n) before after waiting running (acquire n h)

-- A job in front of the waiting one gives its slot back.
free_before :
    (capacity n : ℕ) (xs ys after : List Phase)
    → Next capacity
        (pool (suc n) (xs ++ running ∷ ys) after waiting)
        (pool n (xs ++ outside ∷ ys) after waiting)
free_before capacity n xs ys after =
    subst (λ s. Next capacity s (pool n (xs ++ outside ∷ ys) after waiting)) (same running (suc n))
      (subst
        (λ t.
          Next capacity (record { channel = suc n; jobs = xs ++ running ∷ (ys ++ waiting ∷ after) })
            t)
        (same outside n) (moves (suc n) n xs (ys ++ waiting ∷ after) running outside (finish n)))
  where
    same :
        (p : Phase) (k : ℕ)
        → record { channel = k; jobs = xs ++ p ∷ (ys ++ waiting ∷ after) }
          ≡ pool k (xs ++ p ∷ ys) after waiting
    same p k =
        ap (λ js. record { channel = k; jobs = js })
          (sym (append_assoc xs (p ∷ ys) (waiting ∷ after)))

-- A job behind the waiting one gives its slot back.
free_after :
    (capacity n : ℕ) (before xs ys : List Phase)
    → Next capacity
        (pool (suc n) before (xs ++ running ∷ ys) waiting)
        (pool n before (xs ++ outside ∷ ys) waiting)
free_after capacity n before xs ys =
    subst (λ s. Next capacity s (pool n before (xs ++ outside ∷ ys) waiting)) (same running (suc n))
      (subst
        (λ t.
          Next capacity (record { channel = suc n; jobs = before ++ waiting ∷ xs ++ running ∷ ys })
            t)
        (same outside n) (moves (suc n) n (before ++ waiting ∷ xs) ys running outside (finish n)))
  where
    same :
        (p : Phase) (k : ℕ)
        → record { channel = k; jobs = before ++ waiting ∷ xs ++ p ∷ ys }
          ≡ pool k before (xs ++ p ∷ ys) waiting
    same p k =
        ap (λ js. record { channel = k; jobs = js }) (append_assoc before (waiting ∷ xs) (p ∷ ys))

-- Some moves make a waiting job run; its place among the jobs stays the same.
waiting_gets_slot :
    (capacity n : ℕ) (before after : List Phase)
    → 0 < capacity
    → Reached capacity (record { channel = n; jobs = before ++ waiting ∷ after })
    → (t : Pool) × Steps capacity (record { channel = n; jobs = before ++ waiting ∷ after }) t
      × RunsAt (length before) t
unfolding tokens
waiting_gets_slot capacity zero before after h reached =
    (_, next here (take_slot capacity zero before after h), (before, after, refl, refl))
waiting_gets_slot capacity (suc n) before after h reached =
    elim (side (tokens before) (tokens after) (tokens-append before (waiting ∷ after))) [
      | inl b ↦
          let (xs, ys, e) = holder before b in
          subst
            (λ l.
              (t : Pool) × Steps capacity (pool (suc n) l after waiting) t × RunsAt (length l) t)
            (sym e)
            (
              _,
              next (next here (free_before capacity n xs ys after))
                  (take_slot capacity n (xs ++ outside ∷ ys) after fits),
              (xs ++ outside ∷ ys, after, refl, same_length xs ys),
            )
      | inr a ↦
          let (xs, ys, e) = holder after a in
          subst
            (λ l.
              (t : Pool) × Steps capacity (pool (suc n) before l waiting) t
              × RunsAt (length before) t)
            (sym e)
            (
              _,
              next (next here (free_after capacity n before xs ys))
                  (take_slot capacity n before (xs ++ outside ∷ ys) fits),
              (before, xs ++ outside ∷ ys, refl, refl),
            )
    ]
  where
    counts :
        (suc n ≡ tokens (before ++ waiting ∷ after))
        × (tokens (before ++ waiting ∷ after) ≤ capacity)
    counts = reached_lem capacity _ reached

    fits : n < capacity
    fits = omega (arith, counts)

    side : (x y : ℕ) → tokens (before ++ waiting ∷ after) ≡ x + y → (0 < x) ⊎ (0 < y)
    side x y e = ground (arith, counts, e)

    same_length : (xs ys : List Phase) → length (xs ++ outside ∷ ys) ≡ length (xs ++ running ∷ ys)
    same_length xs ys =
        omega (arith, length-append xs (outside ∷ ys), length-append xs (running ∷ ys))

-- In every state that the scheduler reaches with at least one slot, nothing but a full set of running
-- jobs holds a waiting job up: a slot is free and the job can take it with its next move, or exactly as
-- many other jobs run as there are slots, and there are moves after which the job runs. Which of
-- several waiting jobs gets a slot is not said.
pub reached-progress :
    (capacity n : ℕ) (before after : List Phase)
    → 0 < capacity
    → Reached capacity (record { channel = n; jobs = before ++ waiting ∷ after })
    → ((n < capacity)
        × Next capacity
            (record { channel = n; jobs = before ++ waiting ∷ after })
            (record { channel = suc n; jobs = before ++ running ∷ after }))
      ⊎ ((tokens before + tokens after ≡ capacity)
          × (t : Pool) × Steps capacity (record { channel = n; jobs = before ++ waiting ∷ after }) t
          × RunsAt (length before) t)
unfolding tokens
reached-progress capacity n before after h reached = elim (Bool-cases (ltb n capacity)) [
  | inl free ↦
      let room : n < capacity = ground arith in inl (room, take_slot capacity n before after room)
  | inr full ↦
      let (held, bound) = reached_lem capacity _ reached in
      let (u, steps, runs) = waiting_gets_slot capacity n before after h reached in
      inr (ground (arith, held, bound, tokens-append before (waiting ∷ after)), u, steps, runs)
]
