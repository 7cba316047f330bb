-- ===== src/Compress/Examples.antt =====
-- Runs of the parallel writer of src/internal/compress/compress.go on small data.
use db_backup.Base.{
  ℕ, ◌≡◌, refl, ◌<◌, ◌≤◌, ◌⊎◌, Bool, true, false, List, [], ◌∷◌, Option, none, some, Bytes, codes,
  take, map, concat, arith,
}
use db_backup.Compress.Segments.{segments_of}
use db_backup.Compress.Collector.{ChunkResult, Collector, new_collector, collect}
use db_backup.Compress.Workers.{
  Phase, unborn, waiting, encoding, ready, sent, Pipeline, thread_count, outcome, acquire, release,
  send, Next, submits, moves, receives, Reached, start, step, all_born, all_sent, all_unborn,
  IsFinished,
}
use db_backup.Compress.Counts.{encoders}
use db_backup.Compress.Close.{written_in_order, close-writes_all}
use db_backup.Compress.Progress.{work_left, close_ends}

-- An encoder that frames a segment, and a writer that takes everything.
abbrev framed : Bytes → Option Bytes
framed s = some (60 ∷ s)

abbrev takes_all : List Bytes → Bytes → Bool
takes_all written b = true

abbrev calls : List Bytes
calls = codes "ab" ∷ codes "c" ∷ []

abbrev result : ℕ → Bytes → ChunkResult
result k b = record { seq = k; buf = some b }

three_cut :
    segments_of 2 [] (codes "a" ∷ codes "bcde" ∷ []) ≡ codes "ab" ∷ codes "cd" ∷ codes "e" ∷ []
unfolding segments_of
three_cut = refl

abbrev first_waits : Collector
first_waits = record { next = 0; pending = (1, codes "<c") ∷ []; written = []; stopped = false }

abbrev both_written : Collector
both_written = record {
  next = 2;
  pending = [];
  written = codes "<ab" ∷ codes "<c" ∷ [];
  stopped = false;
}

late_first : collect takes_all first_waits (result 0 (codes "<ab")) ≡ both_written
unfolding collect
late_first = refl

-- An error stops the collector for good.
after_error :
    collect takes_all
      (collect takes_all new_collector (record { seq = 0; buf = none }))
      (result 1 (codes "<c"))
    ≡ record new_collector { stopped = true }
unfolding collect
after_error = refl

abbrev at_state : ℕ → List ChunkResult → Phase → Phase → Collector → Pipeline
at_state n c p q col = record { slots = n; results = c; workers = p ∷ q ∷ []; collector = col }

-- The second segment is encoded and received first.
abbrev RunsTo : Pipeline → Type 0
RunsTo s = Reached 2 framed takes_all (segments_of 2 [] calls) s

both_encode : RunsTo (at_state 2 [] encoding encoding new_collector)
unfolding segments_of all_unborn all_born
both_encode =
    step _ _
      (step _ _
        (step _ _ (step _ _ start (submits 0 [] new_collector [] (unborn ∷ []) refl))
          (submits 0 [] new_collector (waiting ∷ []) [] refl))
        (moves 0 1 [] [] new_collector [] (waiting ∷ []) waiting encoding
          (acquire 0 [] (omega arith))))
      (moves 1 2 [] [] new_collector (encoding ∷ []) [] waiting encoding
        (acquire 1 [] (omega arith)))

second_queued : RunsTo (at_state 1 (result 1 (codes "<c") ∷ []) encoding sent new_collector)
unfolding segments_of
second_queued =
    step _ _
      (step _ _ both_encode
        (moves 2 1 [] [] new_collector (encoding ∷ []) [] encoding ready (release 1 [])))
      (moves 1 1 [] _ new_collector (encoding ∷ []) [] ready sent (send 1 [] (omega arith)))

second_received : RunsTo (at_state 1 [] encoding sent first_waits)
unfolding collect
second_received =
    step _ _ second_queued
      (receives 1 (result 1 (codes "<c")) [] new_collector (encoding ∷ sent ∷ []))

finished : RunsTo (at_state 0 [] sent sent both_written)
unfolding collect segments_of
finished =
    step _ _
      (step _ _
        (step _ _ second_received
          (moves 1 0 [] [] first_waits [] (sent ∷ []) encoding ready (release 0 [])))
        (moves 0 0 [] _ first_waits [] (sent ∷ []) ready sent (send 0 [] (omega arith))))
      (receives 0 (result 0 (codes "<ab")) [] first_waits (sent ∷ sent ∷ []))

written_in_order_example :
    (1 ≡ encoders (encoding ∷ sent ∷ []))
    × (encoders (encoding ∷ sent ∷ []) ≤ thread_count 2)
    × (map framed (take 0 (segments_of 2 [] calls)) ≡ map some [])
written_in_order_example =
    written_in_order 2 framed takes_all (segments_of 2 [] calls)
      (at_state 1 [] encoding sent first_waits) second_received

close-writes_all_example :
    (map framed (segments_of 2 [] calls) ≡ map some (codes "<ab" ∷ codes "<c" ∷ []))
    × (concat (segments_of 2 [] calls) ≡ concat calls)
unfolding all_sent
close-writes_all_example =
    close-writes_all 2 2 framed takes_all calls (at_state 0 [] sent sent both_written) (omega arith)
      finished (refl, refl) refl

close_ends_example :
    (IsFinished (at_state 1 [] encoding sent first_waits)
      ⊎ ((t : Pipeline) × Next 2
            (outcome framed (segments_of 2 [] calls))
            takes_all
            (at_state 1 [] encoding sent first_waits)
            t))
    × ((t : Pipeline)
        → Next 2
            (outcome framed (segments_of 2 [] calls))
            takes_all
            (at_state 1 [] encoding sent first_waits)
            t
        → work_left t < work_left (at_state 1 [] encoding sent first_waits))
close_ends_example =
    close_ends 2 framed takes_all (segments_of 2 [] calls) (at_state 1 [] encoding sent first_waits)
      second_received
