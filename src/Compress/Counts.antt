-- ===== src/Compress/Counts.antt =====
-- The tokens in `slots` and what each goroutine has delivered, move by move.
use db_backup.Base.{
  ℕ, zero, suc, ◌+◌, ◌≤◌, ◌<◌, ◌≡◌, refl, subst, true, List, [], ◌∷◌, ◌++◌, Option, Bytes, length,
  arith, ◌⊎◌, inl, inr,
}
use db_backup.Compress.Collector.{ChunkResult}
use db_backup.Compress.Workers.{
  Phase, unborn, waiting, encoding, ready, sent, thread_count, Move, acquire, release, send,
  all_sent, all_unborn,
}

unfoldable pub encoders : List Phase → ℕ
encoders [] = 0
encoders (encoding ∷ ps) = suc (encoders ps)
encoders (unborn ∷ ps) = encoders ps
encoders (waiting ∷ ps) = encoders ps
encoders (ready ∷ ps) = encoders ps
encoders (sent ∷ ps) = encoders ps

pub encoders-append : (xs ys : List Phase) → encoders (xs ++ ys) ≡ encoders xs + encoders ys
unfolding encoders
encoders-append [] ys = omega arith
encoders-append (unborn ∷ xs) ys = omega (arith, encoders-append xs ys)
encoders-append (waiting ∷ xs) ys = omega (arith, encoders-append xs ys)
encoders-append (encoding ∷ xs) ys = omega (arith, encoders-append xs ys)
encoders-append (ready ∷ xs) ys = omega (arith, encoders-append xs ys)
encoders-append (sent ∷ xs) ys = omega (arith, encoders-append xs ys)

pub encoders-all_unborn : (segs : List Bytes) → encoders (all_unborn segs) ≡ 0
unfolding encoders all_unborn
encoders-all_unborn [] = refl
encoders-all_unborn (s ∷ segs) = encoders-all_unborn segs

-- Each token belongs to a goroutine that encodes.
abbrev pub IsCounted : ℕ → ℕ → List Phase → Type 0
IsCounted threads n ps = (n ≡ encoders ps) × (n ≤ thread_count threads)

pub move-IsCounted :
    (threads seq n m : ℕ) (r : Option Bytes) (c d : List ChunkResult) (before after : List Phase)
    (p q : Phase)
    → Move threads seq r p n c q m d
    → IsCounted threads n (before ++ p ∷ after)
    → IsCounted threads m (before ++ q ∷ after)
unfolding encoders
move-IsCounted threads seq n m r c d before after p q (acquire _ _ h) (e, b) = (
  omega
      (arith, encoders-append before (waiting ∷ after), encoders-append before (encoding ∷ after)),
  omega arith,
)
move-IsCounted threads seq n m r c d before after p q (release _ _) (e, b) = (
  omega (arith, encoders-append before (encoding ∷ after), encoders-append before (ready ∷ after)),
  omega arith,
)
move-IsCounted threads seq n m r c d before after p q (send _ _ h) (e, b) = (
  omega (arith, encoders-append before (ready ∷ after), encoders-append before (sent ∷ after)),
  omega arith,
)

-- What is asked of a goroutine's number once it has sent.
abbrev pub Fate : (ℕ → Type 0) → ℕ → Phase → Type 0
Fate F k sent = F k
Fate F k unborn = Unit
Fate F k waiting = Unit
Fate F k encoding = Unit
Fate F k ready = Unit

abbrev pub Fates : (ℕ → Type 0) → ℕ → List Phase → Type 0
Fates F k [] = Unit
Fates F k (p ∷ ps) = Fate F k p × Fates F (suc k) ps

pub Fates-all_unborn : (F : ℕ → Type 0) (segs : List Bytes) (k : ℕ) → Fates F k (all_unborn segs)
unfolding all_unborn
Fates-all_unborn F [] k = tt
Fates-all_unborn F (s ∷ segs) k = (tt, Fates-all_unborn F segs (suc k))

Fate-map : (F G : ℕ → Type 0) (p : Phase) (k : ℕ) → (F k → G k) → Fate F k p → Fate G k p
Fate-map F G sent k f h = f h
Fate-map F G unborn k f h = tt
Fate-map F G waiting k f h = tt
Fate-map F G encoding k f h = tt
Fate-map F G ready k f h = tt

pub Fates-map :
    (F G : ℕ → Type 0) (ps : List Phase) (k : ℕ)
    → ((i : ℕ) → F i → G i)
    → Fates F k ps
    → Fates G k ps
Fates-map F G [] k f h = tt
Fates-map F G (p ∷ ps) k f (h, hs) = (Fate-map F G p k (f k) h, Fates-map F G ps (suc k) f hs)

-- One goroutine moves on: only its own fate is new.
pub Fates-swap :
    (F : ℕ → Type 0) (before after : List Phase) (p q : Phase) (k : ℕ)
    → Fate F (k + length before) q
    → Fates F k (before ++ p ∷ after)
    → Fates F k (before ++ q ∷ after)
Fates-swap F [] after p q k h (f, fs) = (subst (λ i. Fate F i q) (omega arith) h, fs)
Fates-swap F (b ∷ before) after p q k h (f, fs) =
    (f, Fates-swap F before after p q (suc k) (subst (λ i. Fate F i q) (omega arith) h) fs)

pub Fates-get :
    (F : ℕ → Type 0) (ps : List Phase) (k i : ℕ)
    → all_sent ps ≡ true
    → Fates F k ps
    → i < length ps
    → F (k + i)
unfolding all_sent
Fates-get F [] k i h f l = elim l [ ]
Fates-get F (sent ∷ ps) k zero h (f, fs) l = subst F (omega arith) f
Fates-get F (sent ∷ ps) k (suc i) h (f, fs) l =
    subst F (omega arith) (Fates-get F ps (suc k) i h fs (omega (arith, l)))
Fates-get F (unborn ∷ ps) k i h f l = cc
Fates-get F (waiting ∷ ps) k i h f l = cc
Fates-get F (encoding ∷ ps) k i h f l = cc
Fates-get F (ready ∷ ps) k i h f l = cc

-- A result with this number is in the channel.
abbrev pub Queued : ℕ → List ChunkResult → Type 0
Queued k [] = ⊥
Queued k (r ∷ c) = (r.seq ≡ k) ⊎ Queued k c

pub Queued-more : (k : ℕ) (c d : List ChunkResult) → Queued k c → Queued k (c ++ d)
Queued-more k [] d h = absurd h
Queued-more k (r ∷ c) d (inl e) = inl e
Queued-more k (r ∷ c) d (inr h) = inr (Queued-more k c d h)

pub Queued-last : (c : List ChunkResult) (r : ChunkResult) → Queued r.seq (c ++ r ∷ [])
Queued-last [] r = inl refl
Queued-last (s ∷ c) r = inr (Queued-last c r)
