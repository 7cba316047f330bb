-- ===== src/Compress/Close.antt =====
-- What `Close` of the parallel writer has written when it returns.
use db_backup.Base.{
  ℕ, zero, suc, ◌+◌, ◌≤◌, ◌<◌, ◌≡◌, refl, ap, ◌∙◌, subst, Bool, false, List, [], ◌∷◌, ◌++◌, Option,
  some, Bytes, length, take, map, arith, inl, inr, concat, ltb, Bool-cases,
}
use db_backup.Compress.Segments.{segments_of, concat-segments_of}
use db_backup.Compress.Settle.{Encodes}
use db_backup.Compress.Arrive.{IsSettled, Arrived}
use db_backup.Compress.Workers.{
  Phase, unborn, waiting, Pipeline, thread_count, outcome, submits, moves, receives, Reached, start,
  step, all_unborn, IsFinished,
}
use db_backup.Compress.Counts.{encoders, Fates-get, Queued}
use db_backup.Compress.Order.{Delivered, reached-Inv}

Encodes-shift :
    (e : ℕ → Option Bytes) (bs : List Bytes) (k : ℕ)
    → Encodes e (suc k) bs
    → Encodes (λ i. e (suc i)) k bs
Encodes-shift e [] k h = tt
Encodes-shift e (b ∷ bs) k (h, hs) = (h, Encodes-shift e bs (suc k) hs)

Encodes-take :
    (encode : Bytes → Option Bytes) (segs bs : List Bytes)
    → Encodes (outcome encode segs) 0 bs
    → map encode (take (length bs) segs) ≡ map some bs
Encodes-take encode segs [] h = refl
Encodes-take encode [] (b ∷ bs) (h, hs) = cc
Encodes-take encode (s ∷ segs) (b ∷ bs) (h, hs) =
    cc (h, Encodes-take encode segs bs (Encodes-shift (outcome encode (s ∷ segs)) bs 0 hs))

length-swap :
    (before after : List Phase) (p q : Phase)
    → length (before ++ p ∷ after) ≡ length (before ++ q ∷ after)
length-swap [] after p q = refl
length-swap (b ∷ before) after p q = ap suc (length-swap before after p q)

length-all_unborn : (segs : List Bytes) → length (all_unborn segs) ≡ length segs
unfolding all_unborn
length-all_unborn [] = refl
length-all_unborn (s ∷ segs) = ap suc (length-all_unborn segs)

module _ (threads : ℕ) (encode : Bytes → Option Bytes) (accepts : List Bytes → Bytes → Bool)
    (segs : List Bytes) where
  length-workers :
      (s : Pipeline) → Reached threads encode accepts segs s → length s.workers ≡ length segs
  length-workers s start = length-all_unborn segs
  length-workers s (step r _ b (submits n c col before after h)) =
      length-swap before after waiting unborn ∙ length-workers r b
  length-workers s (step r _ b (moves n m c d col before after p q mv)) =
      length-swap before after q p ∙ length-workers r b
  length-workers s (step r _ b (receives n x c col ps)) = length-workers r b

  -- However the goroutines take turns, at most as many of them encode as there are threads, each with
  -- its own token, and the buffers written are what the encoder makes of the first segments, in
  -- their order.
  pub written_in_order :
      (s : Pipeline)
      → Reached threads encode accepts segs s
      → (s.slots ≡ encoders s.workers)
        × (encoders s.workers ≤ thread_count threads)
        × (map encode (take (length s.collector.written) segs) ≡ map some s.collector.written)
  written_in_order s r =
      let i = reached-Inv threads encode accepts segs s r in
      (
        i.counted.0,
        omega (arith, i.counted.0, i.counted.1),
        Encodes-take encode segs s.collector.written i.sound.encoded,
      )

  not_missing :
      (s : Pipeline) (k : ℕ)
      → IsSettled s.collector
      → s.collector.stopped ≡ false
      → k ≡ s.collector.next
      → Arrived k s.collector
      → ⊥
  not_missing s k h f e (inl a) = cc
  not_missing s k h f e (inr (inl a)) = omega (arith, a, e)
  not_missing s k (inl h) f e (inr (inr (b, w))) = cc
  not_missing s k (inr h) f e (inr (inr (b, w))) = cc

  channel_empty : (s : Pipeline) (k : ℕ) → s.results ≡ [] → Queued k s.results → ⊥
  channel_empty s k e q = subst (Queued k) e q

  all_written :
      (s : Pipeline)
      → Reached threads encode accepts segs s
      → IsFinished s
      → s.collector.stopped ≡ false
      → length segs ≤ s.collector.next
  all_written s r (a, e) f = elim (Bool-cases (ltb s.collector.next (length segs))) [
    | inr l ↦ ground (arith, l)
    | inl l ↦
        let i = reached-Inv threads encode accepts segs s r in
        let d : Delivered threads (outcome encode segs) accepts s.results s.collector
            (0 + s.collector.next) =
          Fates-get (Delivered threads (outcome encode segs) accepts s.results s.collector)
            s.workers 0 s.collector.next a i.delivered (ground (arith, l, length-workers s r)) in
        elim d [
          | inl q ↦ absurd (channel_empty s (0 + s.collector.next) e q)
          | inr q ↦ absurd (not_missing s (0 + s.collector.next) i.settled f (omega arith) q)
        ]
  ]

take_all {ℓ} : {A : Type ℓ} (n : ℕ) (xs : List A) → length xs ≤ n → take n xs ≡ xs
take_all zero [] h = refl
take_all zero (x ∷ xs) h = ground arith
take_all (suc n) [] h = refl
take_all (suc n) (x ∷ xs) h = ap (λ t. x ∷ t) (take_all n xs (omega (arith, h)))

-- For a positive segment size, once `Close` returns and no error has stopped the collector, the
-- buffers written are what the encoder makes of every segment of the data that `Write` was given,
-- in their order, and the segments together are exactly those data.
pub close-writes_all :
    (threads size : ℕ) (encode : Bytes → Option Bytes) (accepts : List Bytes → Bytes → Bool)
    (ps : List Bytes) (s : Pipeline)
    → 0 < size
    → Reached threads encode accepts (segments_of size [] ps) s
    → IsFinished s
    → s.collector.stopped ≡ false
    → (map encode (segments_of size [] ps) ≡ map some s.collector.written)
      × (concat (segments_of size [] ps) ≡ concat ps)
close-writes_all threads size encode accepts ps s h r f e =
    let segs : List Bytes = segments_of size [] ps in
    let i = reached-Inv threads encode accepts segs s r in
    let (_, _, w) = written_in_order threads encode accepts segs s r in
    let full : take (length s.collector.written) segs ≡ segs =
      take_all (length s.collector.written) segs
        (omega (arith, i.sound.counted, all_written threads encode accepts segs s r f e)) in
    (
      subst (λ t. map encode t ≡ map some s.collector.written) full w,
      concat-segments_of size ps [] h,
    )
