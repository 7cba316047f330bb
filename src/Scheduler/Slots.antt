-- ===== src/Scheduler/Slots.antt =====
-- The channel `slots` of the scheduler. A job's goroutine is outside `runOnceJob`, waits for a slot, or
-- runs; `slots` holds a token for each that runs, and a send blocks while it is full.
use db_backup.Base.{
  ℕ, suc, ◌+◌, ◌≤◌, ◌<◌, ◌≡◌, refl, sym, Bool, true, false, List, [], ◌∷◌, ◌++◌, arith,
}

pub data Phase : Type 0 where
  outside waiting running : Phase

unfoldable pub tokens : List Phase → ℕ
tokens [] = 0
tokens (running ∷ ps) = suc (tokens ps)
tokens (outside ∷ ps) = tokens ps
tokens (waiting ∷ ps) = tokens ps

-- What one goroutine may do, with the number of tokens in the channel before and after: enter and
-- find a free slot, enter and wait, get a slot at last, be cancelled, and give the slot back.
pub data Move (capacity : ℕ) : Phase → ℕ → Phase → ℕ → Type 0 where
  enter : (n : ℕ) → n < capacity → Move capacity outside n running (suc n)
  queue : (n : ℕ) → capacity ≤ n → Move capacity outside n waiting n
  acquire : (n : ℕ) → n < capacity → Move capacity waiting n running (suc n)
  cancel : (n : ℕ) → Move capacity waiting n outside n
  finish : (n : ℕ) → Move capacity running (suc n) outside n

pub record Pool : Type 0 where
  pub channel : ℕ
  pub jobs : List Phase

-- One move of one goroutine.
pub data Next (capacity : ℕ) : Pool → Pool → Type 0 where
  moves :
      (n m : ℕ) (before after : List Phase) (p q : Phase)
      → Move capacity p n q m
      → Next capacity
          (record { channel = n; jobs = before ++ p ∷ after })
          (record { channel = m; jobs = before ++ q ∷ after })

unfoldable pub all_outside : List Phase → Bool
all_outside [] = true
all_outside (outside ∷ ps) = all_outside ps
all_outside (waiting ∷ ps) = false
all_outside (running ∷ ps) = false

-- What the scheduler reaches from an empty channel.
pub data Reached (capacity : ℕ) : Pool → Type 0 where
  start :
      (ps : List Phase)
      → all_outside ps ≡ true
      → Reached capacity (record { channel = 0; jobs = ps })
  step : (s t : Pool) → Reached capacity s → Next capacity s t → Reached capacity t

tokens-outside : (ps : List Phase) → all_outside ps ≡ true → tokens ps ≡ 0
unfolding tokens all_outside
tokens-outside [] h = refl
tokens-outside (outside ∷ ps) h = tokens-outside ps h
tokens-outside (waiting ∷ ps) h = cc
tokens-outside (running ∷ ps) h = cc

pub tokens-append : (xs ys : List Phase) → tokens (xs ++ ys) ≡ tokens xs + tokens ys
unfolding tokens
tokens-append [] ys = omega arith
tokens-append (running ∷ xs) ys = omega (arith, tokens-append xs ys)
tokens-append (outside ∷ xs) ys = omega (arith, tokens-append xs ys)
tokens-append (waiting ∷ xs) ys = omega (arith, tokens-append xs ys)

abbrev IsCounted : ℕ → Pool → Type 0
IsCounted capacity s = (s.channel ≡ tokens s.jobs) × (s.channel ≤ capacity)

move-IsCounted :
    (capacity n m : ℕ) (before after : List Phase) (p q : Phase)
    → Move capacity p n q m
    → IsCounted capacity (record { channel = n; jobs = before ++ p ∷ after })
    → IsCounted capacity (record { channel = m; jobs = before ++ q ∷ after })
unfolding tokens
move-IsCounted capacity n m before after p q (enter _ h) (e, b) = (
  omega (arith, tokens-append before (outside ∷ after), tokens-append before (running ∷ after)),
  omega arith,
)
move-IsCounted capacity n m before after p q (queue _ h) (e, b) = (
  omega (arith, tokens-append before (outside ∷ after), tokens-append before (waiting ∷ after)),
  omega arith,
)
move-IsCounted capacity n m before after p q (acquire _ h) (e, b) = (
  omega (arith, tokens-append before (waiting ∷ after), tokens-append before (running ∷ after)),
  omega arith,
)
move-IsCounted capacity n m before after p q (cancel _) (e, b) = (
  omega (arith, tokens-append before (waiting ∷ after), tokens-append before (outside ∷ after)),
  omega arith,
)
move-IsCounted capacity n m before after p q (finish _) (e, b) = (
  omega (arith, tokens-append before (running ∷ after), tokens-append before (outside ∷ after)),
  omega arith,
)

-- However the goroutines take turns, the channel holds exactly one token for each running job, and
-- never more jobs run than the configured concurrency.
pub reached_lem :
    (capacity : ℕ) (s : Pool)
    → Reached capacity s
    → (s.channel ≡ tokens s.jobs) × (tokens s.jobs ≤ capacity)
reached_lem capacity s (start ps h) =
    (sym (tokens-outside ps h), omega (arith, tokens-outside ps h))
reached_lem capacity s (step r _ before (moves n m xs ys p q mv)) =
    let (e, b) = reached_lem capacity r before in
    let (e', b') = move-IsCounted capacity n m xs ys p q mv (e, omega (arith, e)) in
    (e', omega (arith, e'))
