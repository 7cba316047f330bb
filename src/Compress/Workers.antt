-- ===== src/Compress/Workers.antt =====
-- The goroutines of `submit` in src/internal/compress/compress.go: each encodes one segment while it
-- holds a slot, and sends its result to `collect`.
use db_backup.Base.{
  ℕ, suc, ◌*◌, ◌<◌, ◌≡◌, Bool, true, false, List, [], ◌∷◌, ◌++◌, Option, ◌>>=◌, Bytes, ltb,
  if◌then◌else◌, length, get_elem?,
}
use db_backup.Compress.Collector.{ChunkResult, Collector, new_collector, collect}

-- Not submitted, before its slot, with it, after it, and after the result was sent.
pub data Phase : Type 0 where
  unborn waiting encoding ready sent : Phase

pub record Pipeline : Type 0 where
  pub slots : ℕ
  pub results : List ChunkResult
  pub workers : List Phase
  pub collector : Collector

abbrev pub at_least : ℕ → ℕ → ℕ
at_least low n = if ltb n low then low else n

-- `threads` of `newChunkWriter`, and the size of the channel of results.
abbrev pub thread_count : ℕ → ℕ
thread_count threads = at_least 1 threads

abbrev pub buf_size : ℕ → ℕ
buf_size threads = at_least 16 (thread_count threads * 4)

-- What the encoder makes of the segment with a number.
abbrev pub outcome : (Bytes → Option Bytes) → List Bytes → ℕ → Option Bytes
outcome encode segs k = get_elem? segs k >>= encode

-- A goroutine's moves, with the tokens in `slots` and the channel of results before and after: a
-- send to either blocks while it is full.
pub data Move (threads seq : ℕ) (r : Option Bytes)
    : Phase → ℕ → List ChunkResult → Phase → ℕ → List ChunkResult → Type 0 where
  acquire :
      (n : ℕ) (c : List ChunkResult)
      → n < thread_count threads
      → Move threads seq r waiting n c encoding (suc n) c
  release : (n : ℕ) (c : List ChunkResult) → Move threads seq r encoding (suc n) c ready n c
  send :
      (n : ℕ) (c : List ChunkResult)
      → length c < buf_size threads
      → Move threads seq r ready n c sent n (c ++ record { seq = seq; buf = r } ∷ [])

unfoldable pub all_born : List Phase → Bool
all_born [] = true
all_born (unborn ∷ ps) = false
all_born (waiting ∷ ps) = all_born ps
all_born (encoding ∷ ps) = all_born ps
all_born (ready ∷ ps) = all_born ps
all_born (sent ∷ ps) = all_born ps

unfoldable pub all_sent : List Phase → Bool
all_sent [] = true
all_sent (unborn ∷ ps) = false
all_sent (waiting ∷ ps) = false
all_sent (encoding ∷ ps) = false
all_sent (ready ∷ ps) = false
all_sent (sent ∷ ps) = all_sent ps

unfoldable pub all_unborn : List Bytes → List Phase
all_unborn [] = []
all_unborn (s ∷ segs) = unborn ∷ all_unborn segs

module _ (threads : ℕ) (e : ℕ → Option Bytes) (accepts : List Bytes → Bytes → Bool) where
  -- The next segment is submitted, a goroutine moves, or the collector receives.
  pub data Next : Pipeline → Pipeline → Type 0 where
    submits :
        (n : ℕ) (c : List ChunkResult) (col : Collector) (before after : List Phase)
        → all_born before ≡ true
        → Next
            (record { slots = n; results = c; workers = before ++ unborn ∷ after; collector = col })
            (record {
              slots = n;
              results = c;
              workers = before ++ waiting ∷ after;
              collector = col;
            })
    moves :
        (n m : ℕ) (c d : List ChunkResult) (col : Collector) (before after : List Phase)
        (p q : Phase)
        → Move threads (length before) (e (length before)) p n c q m d
        → Next
            (record { slots = n; results = c; workers = before ++ p ∷ after; collector = col })
            (record { slots = m; results = d; workers = before ++ q ∷ after; collector = col })
    receives :
        (n : ℕ) (r : ChunkResult) (c : List ChunkResult) (col : Collector) (ps : List Phase)
        → Next
            (record { slots = n; results = r ∷ c; workers = ps; collector = col })
            (record { slots = n; results = c; workers = ps; collector = collect accepts col r })

-- What the writer reaches with these segments to submit.
pub data Reached (threads : ℕ) (encode : Bytes → Option Bytes) (accepts : List Bytes → Bytes → Bool)
    (segs : List Bytes) : Pipeline → Type 0 where
  start :
      Reached threads encode accepts segs
        (record { slots = 0; results = []; workers = all_unborn segs; collector = new_collector })
  step :
      (s t : Pipeline)
      → Reached threads encode accepts segs s
      → Next threads (outcome encode segs) accepts s t
      → Reached threads encode accepts segs t

-- `Close` returns: every goroutine is done and the collector has received every result.
abbrev pub IsFinished : Pipeline → Type 0
IsFinished s = (all_sent s.workers ≡ true) × (s.results ≡ [])
