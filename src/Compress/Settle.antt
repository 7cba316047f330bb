-- ===== src/Compress/Settle.antt =====
-- What the collector keeps true from result to result.
use db_backup.Base.{
  ℕ, zero, suc, ◌+◌, ◌≤◌, ◌<◌, ◌≡◌, refl, ◌∙◌, subst, Bool, false, List, [], ◌∷◌, ◌++◌, Option,
  none, some, Bytes, ◌==◌, ==_iff, length, length-append, All, arith, if-intro, Bool-cases,
  Option-cases, inl, inr,
}
use db_backup.Compress.Collector.{
  ChunkResult, Collector, find_buf, delete_key, give_up, write_next, drain, take_buf, take_result,
  collect,
}

length-delete_key : (k : ℕ) (ps : List (ℕ × Bytes)) → length (delete_key k ps) ≤ length ps
unfolding delete_key
length-delete_key k [] = omega arith
length-delete_key k ((j, b) ∷ ps) = ground (arith, length-delete_key k ps)

pub length-delete_key_found :
    (k : ℕ) (ps : List (ℕ × Bytes)) (b : Bytes)
    → find_buf k ps ≡ some b
    → length (delete_key k ps) < length ps
unfolding delete_key find_buf
length-delete_key_found k [] b h = cc
length-delete_key_found k ((j, c) ∷ ps) b h = elim (Bool-cases (j == k)) [
  | inl e ↦ rw e (omega (arith, length-delete_key k ps))
  | inr e ↦ rw e (omega (arith, length-delete_key_found k ps b (rw e at h)))
]

pub find_buf-delete_key :
    (k i : ℕ) (ps : List (ℕ × Bytes))
    → (i == k) ≡ false
    → find_buf i (delete_key k ps) ≡ find_buf i ps
unfolding delete_key find_buf
find_buf-delete_key k i [] h = refl
find_buf-delete_key k i ((j, b) ∷ ps) h = ground (arith, find_buf-delete_key k i ps h, h)

-- The encoded segment with each number, if there is such a segment and its encoder works.
module _ (e : ℕ → Option Bytes) where
  -- The buffers are those of the segments from this number on.
  abbrev pub Encodes : ℕ → List Bytes → Type 0
  Encodes k [] = Unit
  Encodes k (b ∷ bs) = (e k ≡ some b) × Encodes (suc k) bs

  Encodes-more :
      (k : ℕ) (bs : List Bytes) (b : Bytes)
      → Encodes k bs
      → e (k + length bs) ≡ some b
      → Encodes k (bs ++ b ∷ [])
  Encodes-more k [] b h n = (subst (λ j. e j ≡ some b) (omega arith) n, tt)
  Encodes-more k (c ∷ bs) b (h, hs) n =
      (h, Encodes-more (suc k) bs b hs (subst (λ j. e j ≡ some b) (omega arith) n))

  abbrev pub Waiting : List (ℕ × Bytes) → Type 0
  Waiting ps = All (λ (k, b). e k ≡ some b) ps

  Waiting-delete_key : (k : ℕ) (ps : List (ℕ × Bytes)) → Waiting ps → Waiting (delete_key k ps)
  unfolding delete_key
  Waiting-delete_key k [] h = tt
  Waiting-delete_key k ((j, b) ∷ ps) (h, hs) = elim (Bool-cases (j == k)) [
    | inl q ↦ rw q (Waiting-delete_key k ps hs)
    | inr q ↦ rw q (h, Waiting-delete_key k ps hs)
  ]

  Waiting-find_buf :
      (k : ℕ) (ps : List (ℕ × Bytes)) (b : Bytes)
      → Waiting ps
      → find_buf k ps ≡ some b
      → e k ≡ some b
  unfolding find_buf
  Waiting-find_buf k [] b h f = cc
  Waiting-find_buf k ((j, c) ∷ ps) b (h, hs) f = elim (Bool-cases (j == k)) [
    | inl q ↦ subst (λ i. e i ≡ some b) ((==_iff j k).0 q) (h ∙ (rw q at f))
    | inr q ↦ Waiting-find_buf k ps b hs (rw q at f)
  ]

  -- What has been written are the first segments, and what waits are others.
  pub record IsSound (c : Collector) : Type 0 where
    pub counted : length c.written ≡ c.next
    pub encoded : Encodes 0 c.written
    pub waiting : Waiting c.pending

  give_up-IsSound : (c : Collector) → IsSound c → IsSound (give_up c)
  give_up-IsSound c s = record { counted = s.counted; encoded = s.encoded; waiting = s.waiting }

  write_next-IsSound :
      (c : Collector) (b : Bytes) (ps : List (ℕ × Bytes))
      → IsSound c
      → e c.next ≡ some b
      → Waiting ps
      → IsSound (record (write_next c b) { pending = ps })
  write_next-IsSound c b ps s h w = record {
    counted = length-append c.written (b ∷ []) ∙ omega (arith, s.counted);
    encoded =
        Encodes-more 0 c.written b s.encoded
          (subst (λ j. e j ≡ some b) (omega (arith, s.counted)) h);
    waiting = w;
  }

  -- Each segment's result is what its encoder makes of it.
  module _ (accepts : List Bytes → Bytes → Bool) where
    drain-IsSound : (fuel : ℕ) (c : Collector) → IsSound c → IsSound (drain accepts fuel c)
    unfolding drain
    drain-IsSound zero c s = s
    drain-IsSound (suc fuel) c s = elim (Option-cases (find_buf c.next c.pending)) [
      | inl n ↦ rw (n, drain) s
      | inr (b, f) ↦
          rw (f, drain)
            (elim (Bool-cases (accepts c.written b)) [
              | inl y ↦ rw y (
                  drain-IsSound fuel _ (
                    write_next-IsSound c b (delete_key c.next c.pending) s
                      (Waiting-find_buf c.next c.pending b s.waiting f)
                      (Waiting-delete_key c.next c.pending s.waiting)))
              | inr n ↦ rw n (give_up-IsSound c s)
            ])
    ]

    take_buf-IsSound :
        (c : Collector) (k : ℕ) (b : Bytes)
        → IsSound c
        → e k ≡ some b
        → IsSound (take_buf accepts c k b)
    unfolding drain
    take_buf-IsSound c k b s h =
        if-intro IsSound (k == c.next)
          (λ q.
            if-intro IsSound (accepts c.written b)
              (λ y. drain-IsSound (length c.pending) _ (
                write_next-IsSound c b c.pending s
                  (subst (λ i. e i ≡ some b) ((==_iff k c.next).0 q) h) s.waiting))
              (λ n. give_up-IsSound c s))
          (λ q. record {
            counted = s.counted;
            encoded = s.encoded;
            waiting = (h, Waiting-delete_key k c.pending s.waiting);
          })

    take_result-IsSound :
        (c : Collector) (k : ℕ) (r : Option Bytes)
        → IsSound c
        → e k ≡ r
        → IsSound (take_result accepts c k r)
    take_result-IsSound c k none s h = give_up-IsSound c s
    take_result-IsSound c k (some b) s h = take_buf-IsSound c k b s h

    pub collect-IsSound :
        (c : Collector) (r : ChunkResult)
        → IsSound c
        → e r.seq ≡ r.buf
        → IsSound (collect accepts c r)
    unfolding collect
    collect-IsSound c r s h =
        if-intro IsSound c.stopped (λ y. s) (λ n. take_result-IsSound c r.seq r.buf s h)
