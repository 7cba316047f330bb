-- ===== src/Restore/Codec.antt =====
-- A stand-in for the JSON of sidecars in the examples: each text behind its length.
use db_backup.Base.{
  ◌≡◌, refl, [], ◌∷◌, ◌++◌, Option, some, Bytes, length, take, drop, take-append, drop-append,
}
use db_backup.Retention.Listing.{Sidecar}
use db_backup.Runner.Run.{Meta}

abbrev put : Bytes → Bytes → Bytes
put s rest = length s ∷ s ++ rest

abbrev first : Bytes → Bytes
first [] = []
first (n ∷ s) = take n s

abbrev behind : Bytes → Bytes
behind [] = []
behind (n ∷ s) = drop n s

first-put : (s rest : Bytes) → first (put s rest) ≡ s
first-put s rest = take-append s rest (length s) refl

behind-put : (s rest : Bytes) → behind (put s rest) ≡ rest
behind-put s rest = drop-append s rest (length s) refl

abbrev pub framed_sidecar : Sidecar → Bytes
framed_sidecar sc = put sc.strategy (put sc.base (put sc.timestamp (put sc.position [])))

abbrev pub read_frames : Bytes → Option Sidecar
read_frames b = some (record {
  strategy = first b;
  base = first (behind b);
  timestamp = first (behind (behind b));
  position = first (behind (behind (behind b)));
})

pub read_frames-framed_sidecar :
    (m : Meta) → read_frames (framed_sidecar m.sidecar) ≡ some m.sidecar
read_frames-framed_sidecar m = simp (first-put, behind-put)
