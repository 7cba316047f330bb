-- ===== src/Compress/Collector.antt =====
-- `collect` of `chunkWriter` in src/internal/compress/compress.go: results arrive in any order and are
-- written in that of the segments.
use db_backup.Base.{
  ℕ, zero, suc, Bool, true, false, List, [], ◌∷◌, ◌++◌, Option, none, some, Bytes, ◌==◌,
  if◌then◌else◌, length,
}

-- `chunkResult`; without a buffer it holds an error.
pub record ChunkResult : Type 0 where
  pub seq : ℕ
  pub buf : Option Bytes

pub record Collector : Type 0 where
  pub next : ℕ
  pub pending : List (ℕ × Bytes)
  pub written : List Bytes
  pub stopped : Bool

abbrev pub new_collector : Collector
new_collector = record { next = 0; pending = []; written = []; stopped = false }

unfoldable pub find_buf : ℕ → List (ℕ × Bytes) → Option Bytes
find_buf k [] = none
find_buf k ((j, b) ∷ rest) = let later = find_buf k rest in if j == k then some b else later

unfoldable pub delete_key : ℕ → List (ℕ × Bytes) → List (ℕ × Bytes)
delete_key k [] = []
delete_key k ((j, b) ∷ rest) =
    let later = delete_key k rest in if j == k then later else (j, b) ∷ later

abbrev pub give_up : Collector → Collector
give_up c = record c { stopped = true }

abbrev pub write_next : Collector → Bytes → Collector
write_next c b = record c { next = suc c.next; written = c.written ++ b ∷ [] }

-- The writer below may refuse a buffer behind those that it has taken; what it may have written of a
-- buffer that it refuses is left out.
module _ (accepts : List Bytes → Bytes → Bool) where
  -- The inner loop, which runs at most once for each buffer that waits.
  unfoldable pub drain : ℕ → Collector → Collector
  unfolding find_buf delete_key
  drain zero c = c
  drain (suc fuel) c = elim (find_buf c.next c.pending) [
    | none ↦ c
    | some b ↦ elim (accepts c.written b) [
      | true ↦ drain fuel (record (write_next c b) { pending = delete_key c.next c.pending })
      | false ↦ give_up c
    ]
  ]

  abbrev pub take_buf : Collector → ℕ → Bytes → Collector
  take_buf c seq b =
      if seq == c.next
      then if accepts c.written b then drain (length c.pending) (write_next c b) else give_up c
      else record c { pending = (seq, b) ∷ delete_key seq c.pending }

  abbrev pub take_result : Collector → ℕ → Option Bytes → Collector
  take_result c seq none = give_up c
  take_result c seq (some b) = take_buf c seq b

  -- One round of the outer loop.
  unfoldable pub collect : Collector → ChunkResult → Collector
  unfolding drain delete_key
  collect c r = if c.stopped then c else take_result c r.seq r.buf
