-- ===== src/Compress/Order.antt =====
-- What the goroutines of the parallel writer keep true together, in every order of their moves.
use db_backup.Base.{
  ℕ, ◌≡◌, refl, sym, ◌∙◌, subst, Bool, List, [], ◌∷◌, ◌++◌, Option, Bytes, length, All, All-append,
  arith, ◌⊎◌, inl, inr,
}
use db_backup.Compress.Collector.{ChunkResult, Collector, new_collector, find_buf, collect}
use db_backup.Compress.Settle.{IsSound, collect-IsSound}
use db_backup.Compress.Arrive.{
  IsSettled, Arrived, collect-Arrived, collect-Arrived_self, collect-IsSettled,
}
use db_backup.Compress.Workers.{
  Phase, unborn, waiting, encoding, ready, sent, Pipeline, outcome, Move, acquire, release, send,
  Next, submits, moves, receives, Reached, start, step, all_unborn,
}
use db_backup.Compress.Counts.{
  encoders, encoders-append, encoders-all_unborn, IsCounted, move-IsCounted, Fates,
  Fates-all_unborn, Fates-map, Fates-swap, Queued, Queued-more, Queued-last,
}

module _ (threads : ℕ) (e : ℕ → Option Bytes) (accepts : List Bytes → Bytes → Bool) where
  -- The result of a goroutine that has sent it is under way or has arrived.
  abbrev pub Delivered : List ChunkResult → Collector → ℕ → Type 0
  Delivered c col k = Queued k c ⊎ Arrived k col

  pub record Inv (s : Pipeline) : Type 0 where
    pub counted : IsCounted threads s.slots s.workers
    pub sound : IsSound e s.collector
    pub settled : IsSettled s.collector
    pub honest : All (λ r. e r.seq ≡ r.buf) s.results
    pub delivered : Fates (Delivered s.results s.collector) 0 s.workers

  Delivered-more :
      (c d : List ChunkResult) (col : Collector) (k : ℕ)
      → Delivered c col k
      → Delivered (c ++ d) col k
  Delivered-more c d col k (inl q) = inl (Queued-more k c d q)
  Delivered-more c d col k (inr a) = inr a

  Delivered-collect :
      (r : ChunkResult) (c : List ChunkResult) (col : Collector) (k : ℕ)
      → Delivered (r ∷ c) col k
      → Delivered c (collect accepts col r) k
  Delivered-collect r c col k (inl (inl q)) =
      inr (subst (λ i. Arrived i (collect accepts col r)) q (collect-Arrived_self accepts col r))
  Delivered-collect r c col k (inl (inr q)) = inl q
  Delivered-collect r c col k (inr a) = inr (collect-Arrived accepts col r k a)

  move-honest :
      (seq n m : ℕ) (c d : List ChunkResult) (p q : Phase)
      → Move threads seq (e seq) p n c q m d
      → All (λ r. e r.seq ≡ r.buf) c
      → All (λ r. e r.seq ≡ r.buf) d
  move-honest seq n m c d p q (acquire _ _ h) a = a
  move-honest seq n m c d p q (release _ _) a = a
  move-honest seq n m c d p q (send _ _ h) a = All-append (λ r. e r.seq ≡ r.buf) c _ a (refl, tt)

  move-Delivered :
      (seq n m : ℕ) (c d : List ChunkResult) (col : Collector) (before after : List Phase)
      (p q : Phase)
      → seq ≡ length before
      → Move threads seq (e seq) p n c q m d
      → Fates (Delivered c col) 0 (before ++ p ∷ after)
      → Fates (Delivered d col) 0 (before ++ q ∷ after)
  move-Delivered seq n m c d col before after p q l (acquire _ _ h) f =
      Fates-swap (Delivered c col) before after waiting encoding 0 tt f
  move-Delivered seq n m c d col before after p q l (release _ _) f =
      Fates-swap (Delivered c col) before after encoding ready 0 tt f
  move-Delivered seq n m c d col before after p q l (send _ _ h) f =
      Fates-swap (Delivered (c ++ record { seq = seq; buf = e seq } ∷ []) col) before after ready
        sent 0
        (subst (Delivered (c ++ record { seq = seq; buf = e seq } ∷ []) col) (l ∙ omega arith)
          (inl (Queued-last c (record { seq = seq; buf = e seq }))))
        (Fates-map (Delivered c col) _ (before ++ ready ∷ after) 0 (Delivered-more c _ col) f)

  Next-Inv : (s t : Pipeline) → Next threads e accepts s t → Inv s → Inv t
  unfolding encoders
  Next-Inv s t (submits n c col before after h) i = record {
    counted = (
      omega (
        arith,
        i.counted.0,
        encoders-append before (unborn ∷ after),
        encoders-append before (waiting ∷ after),
      ),
      i.counted.1,
    );
    sound = i.sound;
    settled = i.settled;
    honest = i.honest;
    delivered = Fates-swap (Delivered c col) before after unborn waiting 0 tt i.delivered;
  }
  Next-Inv s t (moves n m c d col before after p q mv) i = record {
    counted =
        move-IsCounted threads (length before) n m (e (length before)) c d before after p q mv
          i.counted;
    sound = i.sound;
    settled = i.settled;
    honest = move-honest (length before) n m c d p q mv i.honest;
    delivered = move-Delivered (length before) n m c d col before after p q refl mv i.delivered;
  }
  Next-Inv s t (receives n r c col ps) i = record {
    counted = i.counted;
    sound = collect-IsSound e accepts col r i.sound i.honest.0;
    settled = collect-IsSettled accepts col r i.settled;
    honest = i.honest.1;
    delivered = Fates-map (Delivered (r ∷ c) col) _ ps 0 (Delivered-collect r c col) i.delivered;
  }

start-Inv :
    (threads : ℕ) (e : ℕ → Option Bytes) (accepts : List Bytes → Bytes → Bool) (segs : List Bytes)
    → Inv threads e accepts
        (record { slots = 0; results = []; workers = all_unborn segs; collector = new_collector })
unfolding find_buf
start-Inv threads e accepts segs = record {
  counted = (sym (encoders-all_unborn segs), omega arith);
  sound = record { counted = refl; encoded = tt; waiting = tt };
  settled = inr refl;
  honest = tt;
  delivered = Fates-all_unborn _ segs 0;
}

pub reached-Inv :
    (threads : ℕ) (encode : Bytes → Option Bytes) (accepts : List Bytes → Bytes → Bool)
    (segs : List Bytes) (s : Pipeline)
    → Reached threads encode accepts segs s
    → Inv threads (outcome encode segs) accepts s
reached-Inv threads encode accepts segs s start =
    start-Inv threads (outcome encode segs) accepts segs
reached-Inv threads encode accepts segs s (step r _ before n) =
    Next-Inv threads (outcome encode segs) accepts r s n
      (reached-Inv threads encode accepts segs r before)
