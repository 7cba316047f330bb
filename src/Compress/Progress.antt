-- ===== src/Compress/Progress.antt =====
-- The moves that are left to the parallel writer of src/internal/compress/compress.go.
use db_backup.Base.{
  ℕ, zero, suc, ◌+◌, ◌<◌, ◌≡◌, refl, sym, ap, subst, Bool, true, List, [], ◌∷◌, ◌++◌, Option, Bytes,
  length, length-append, arith, ◌⊎◌, inl, inr, ltb, ltb→lt, Bool-cases,
}
use db_backup.Compress.Collector.{ChunkResult, Collector}
use db_backup.Compress.Workers.{
  Phase, unborn, waiting, encoding, ready, sent, Pipeline, thread_count, outcome, Move, acquire,
  release, send, Next, submits, moves, receives, Reached, all_born, all_sent, IsFinished,
}
use db_backup.Compress.Counts.{encoders, encoders-append}
use db_backup.Compress.Close.{written_in_order}

-- The moves that a goroutine has before it, its result's way through the channel included.
unfoldable pub moves_left : List Phase → ℕ
moves_left [] = 0
moves_left (unborn ∷ ps) = 5 + moves_left ps
moves_left (waiting ∷ ps) = 4 + moves_left ps
moves_left (encoding ∷ ps) = 3 + moves_left ps
moves_left (ready ∷ ps) = 2 + moves_left ps
moves_left (sent ∷ ps) = moves_left ps

unfoldable pub work_left : Pipeline → ℕ
unfolding moves_left
work_left s = moves_left s.workers + length s.results

moves_left-append : (xs ys : List Phase) → moves_left (xs ++ ys) ≡ moves_left xs + moves_left ys
unfolding moves_left
moves_left-append [] ys = omega arith
moves_left-append (unborn ∷ xs) ys = omega (arith, moves_left-append xs ys)
moves_left-append (waiting ∷ xs) ys = omega (arith, moves_left-append xs ys)
moves_left-append (encoding ∷ xs) ys = omega (arith, moves_left-append xs ys)
moves_left-append (ready ∷ xs) ys = omega (arith, moves_left-append xs ys)
moves_left-append (sent ∷ xs) ys = omega (arith, moves_left-append xs ys)

move_less :
    (threads seq n m : ℕ) (r : Option Bytes) (c d : List ChunkResult) (before after : List Phase)
    (p q : Phase)
    → Move threads seq r p n c q m d
    → moves_left (before ++ q ∷ after) + length d < moves_left (before ++ p ∷ after) + length c
unfolding moves_left
move_less threads seq n m r c d before after p q (acquire _ _ h) =
    omega (
      arith,
      moves_left-append before (waiting ∷ after),
      moves_left-append before (encoding ∷ after),
    )
move_less threads seq n m r c d before after p q (release _ _) =
    omega
      (arith, moves_left-append before (encoding ∷ after), moves_left-append before (ready ∷ after))
move_less threads seq n m r c d before after p q (send _ _ h) = omega (
  arith,
  moves_left-append before (ready ∷ after),
  moves_left-append before (sent ∷ after),
  length-append c (record { seq = seq; buf = r } ∷ []),
)

-- Every move of the parallel writer leaves less work to do.
pub Next-work_left :
    (threads : ℕ) (e : ℕ → Option Bytes) (accepts : List Bytes → Bytes → Bool) (s t : Pipeline)
    → Next threads e accepts s t
    → work_left t < work_left s
unfolding work_left
Next-work_left threads e accepts s t (submits n c col before after h) =
    omega
      (arith, moves_left-append before (unborn ∷ after), moves_left-append before (waiting ∷ after))
Next-work_left threads e accepts s t (moves n m c d col before after p q mv) =
    move_less threads (length before) n m (e (length before)) c d before after p q mv
Next-work_left threads e accepts s t (receives n r c col ps) = omega arith

-- Where the workers stand: all have sent, or the first that has not, behind those that have.
data Front : List Phase → Type 0 where
  done : (ps : List Phase) → all_sent ps ≡ true → Front ps
  at :
      (before after : List Phase) (p : Phase)
      → all_born before ≡ true
      → (p ≡ sent → ⊥)
      → Front (before ++ p ∷ after)

front_sent : (ps : List Phase) → Front ps → Front (sent ∷ ps)
unfolding all_born all_sent
front_sent ps (done _ h) = done (sent ∷ ps) h
front_sent ps (at before after p h n) = at (sent ∷ before) after p h n

front : (ps : List Phase) → Front ps
unfolding all_sent all_born
front [] = done [] refl
front (sent ∷ ps) = front_sent ps (front ps)
front (unborn ∷ ps) = at [] ps unborn refl (λ e. cc)
front (waiting ∷ ps) = at [] ps waiting refl (λ e. cc)
front (encoding ∷ ps) = at [] ps encoding refl (λ e. cc)
front (ready ∷ ps) = at [] ps ready refl (λ e. cc)

-- A goroutine that encodes, where there is one.
record Encoder (ps : List Phase) : Type 0 where
  before : List Phase
  after : List Phase
  whole : ps ≡ before ++ encoding ∷ after

behind_another : (p : Phase) (ps : List Phase) → Encoder ps → Encoder (p ∷ ps)
behind_another p ps h = record {
  before = p ∷ h.before;
  after = h.after;
  whole = ap (λ t. p ∷ t) h.whole;
}

token_holder : (ps : List Phase) → 0 < encoders ps → Encoder ps
unfolding encoders
token_holder [] h = elim h [ ]
token_holder (encoding ∷ ps) h = record { before = []; after = ps; whole = refl }
token_holder (unborn ∷ ps) h = behind_another unborn ps (token_holder ps h)
token_holder (waiting ∷ ps) h = behind_another waiting ps (token_holder ps h)
token_holder (ready ∷ ps) h = behind_another ready ps (token_holder ps h)
token_holder (sent ∷ ps) h = behind_another sent ps (token_holder ps h)

module _ (threads : ℕ) (e : ℕ → Option Bytes) (accepts : List Bytes → Bytes → Bool) where
  abbrev at_state : ℕ → List ChunkResult → List Phase → Collector → Pipeline
  at_state n c ps col = record { slots = n; results = c; workers = ps; collector = col }

  -- Some move is possible.
  abbrev CanMove : Pipeline → Type 0
  CanMove s = (t : Pipeline) × Next threads e accepts s t

  give_back :
      (n : ℕ) (c : List ChunkResult) (ps : List Phase) (col : Collector)
      → 0 < n
      → Encoder ps
      → CanMove (at_state n c ps col)
  give_back zero c ps col h k = elim h [ ]
  give_back (suc n) c ps col h k =
      subst (λ l. CanMove (at_state (suc n) c l col)) (sym k.whole)
        (_, moves (suc n) n c c col k.before k.after encoding ready (release n c))

  encoding_moves :
      (n : ℕ) (before after : List Phase) (col : Collector)
      → n ≡ encoders (before ++ encoding ∷ after)
      → CanMove (at_state n [] (before ++ encoding ∷ after) col)
  unfolding encoders
  encoding_moves n before after col h =
      give_back n [] (before ++ encoding ∷ after) col
        (omega (arith, h, encoders-append before (encoding ∷ after)))
        (record { before = before; after = after; whole = refl })

  waiting_moves :
      (n : ℕ) (before after : List Phase) (col : Collector)
      → n ≡ encoders (before ++ waiting ∷ after)
      → CanMove (at_state n [] (before ++ waiting ∷ after) col)
  waiting_moves n before after col h = elim (Bool-cases (ltb n (thread_count threads))) [
    | inl l ↦
        (_, moves n (suc n) [] [] col before after waiting encoding (acquire n [] (ltb→lt _ _ l)))
    | inr l ↦
        let some_token : 0 < n = ground (arith, l) in
        give_back n [] (before ++ waiting ∷ after) col some_token
          (token_holder (before ++ waiting ∷ after) (omega (arith, h, some_token)))
  ]

  front_moves :
      (n : ℕ) (before after : List Phase) (p : Phase) (col : Collector)
      → all_born before ≡ true
      → (p ≡ sent → ⊥)
      → n ≡ encoders (before ++ p ∷ after)
      → CanMove (at_state n [] (before ++ p ∷ after) col)
  front_moves n before after unborn col b ns h = (_, submits n [] col before after b)
  front_moves n before after waiting col b ns h = waiting_moves n before after col h
  front_moves n before after encoding col b ns h = encoding_moves n before after col h
  front_moves n before after ready col b ns h =
      (_, moves n n [] _ col before after ready sent (send n [] (ground arith)))
  front_moves n before after sent col b ns h = absurd (ns refl)

  idle_or_busy :
      (n : ℕ) (ps : List Phase) (col : Collector)
      → Front ps
      → n ≡ encoders ps
      → IsFinished (at_state n [] ps col) ⊎ CanMove (at_state n [] ps col)
  idle_or_busy n ps col (done _ h) e = inl (h, refl)
  idle_or_busy n ps col (at before after p b ns) e = inr (front_moves n before after p col b ns e)

  ends_or_moves :
      (n : ℕ) (c : List ChunkResult) (ps : List Phase) (col : Collector)
      → n ≡ encoders ps
      → IsFinished (at_state n c ps col) ⊎ CanMove (at_state n c ps col)
  ends_or_moves n [] ps col e = idle_or_busy n ps col (front ps) e
  ends_or_moves n (r ∷ c) ps col e = inr (_, receives n r c col ps)

-- However the goroutines have taken turns, either `Close` returns or some goroutine or the collector
-- can move, and every move leaves less work, so the writer neither blocks for good nor runs on for
-- ever.
pub close_ends :
    (threads : ℕ) (encode : Bytes → Option Bytes) (accepts : List Bytes → Bytes → Bool)
    (segs : List Bytes) (s : Pipeline)
    → Reached threads encode accepts segs s
    → (IsFinished s ⊎ ((t : Pipeline) × Next threads (outcome encode segs) accepts s t))
      × ((t : Pipeline)
          → Next threads (outcome encode segs) accepts s t
          → work_left t < work_left s)
close_ends threads encode accepts segs s r = (
  ends_or_moves threads (outcome encode segs) accepts s.slots s.results s.workers s.collector
      (written_in_order threads encode accepts segs s r).0,
  λ t h. Next-work_left threads (outcome encode segs) accepts s t h,
)
