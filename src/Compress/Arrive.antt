-- ===== src/Compress/Arrive.antt =====
-- What becomes of a segment's result once `collect` has received it.
use db_backup.Base.{
  ℕ, zero, suc, ◌≤◌, ◌<◌, ◌≡◌, refl, ◌∙◌, subst, Bool, true, false, List, [], ◌∷◌, Option, none,
  some, Bytes, ◌==◌, ==_iff, length, arith, if-intro, Bool-cases, Option-cases, ◌⊎◌, inl, inr,
}
use db_backup.Compress.Collector.{
  ChunkResult, Collector, find_buf, delete_key, write_next, drain, take_buf, take_result, collect,
}
use db_backup.Compress.Settle.{length-delete_key_found, find_buf-delete_key}

-- Nothing that waits can be written.
abbrev pub IsSettled : Collector → Type 0
IsSettled c = (c.stopped ≡ true) ⊎ (find_buf c.next c.pending ≡ none)

-- The segment has been written or waits, or the collector has given up.
abbrev pub Arrived : ℕ → Collector → Type 0
Arrived k c = (c.stopped ≡ true) ⊎ ((k < c.next) ⊎ ((b : Bytes) × (find_buf k c.pending ≡ some b)))

find_buf-put :
    (i k : ℕ) (b : Bytes) (ps : List (ℕ × Bytes))
    → (k == i) ≡ false
    → find_buf i ((k, b) ∷ delete_key k ps) ≡ find_buf i ps
unfolding find_buf
find_buf-put i k b ps h = rw h (find_buf-delete_key k i ps (ground (arith, h)))

find_buf-put_self : (k : ℕ) (b : Bytes) (ps : List (ℕ × Bytes)) → find_buf k ((k, b) ∷ ps) ≡ some b
unfolding find_buf
find_buf-put_self k b ps = ground arith

find_buf-put_some :
    (i k : ℕ) (b w : Bytes) (ps : List (ℕ × Bytes))
    → find_buf i ps ≡ some w
    → (v : Bytes) × (find_buf i ((k, b) ∷ delete_key k ps) ≡ some v)
find_buf-put_some i k b w ps h = elim (Bool-cases (k == i)) [
  | inl q ↦
      subst (λ j. (v : Bytes) × (find_buf j ((k, b) ∷ delete_key k ps) ≡ some v)) ((==_iff k i).0 q)
        (b, find_buf-put_self k b (delete_key k ps))
  | inr q ↦ (w, find_buf-put i k b ps q ∙ h)
]

find_buf_empty : (i : ℕ) (ps : List (ℕ × Bytes)) → length ps ≤ 0 → find_buf i ps ≡ none
unfolding find_buf
find_buf_empty i [] h = refl
find_buf_empty i (p ∷ ps) h = ground arith

write_next-Arrived :
    (k : ℕ) (c : Collector) (b : Bytes)
    → Arrived k c
    → Arrived k (record (write_next c b) { pending = delete_key c.next c.pending })
write_next-Arrived k c b (inl s) = inl s
write_next-Arrived k c b (inr (inl h)) = inr (inl (omega arith))
write_next-Arrived k c b (inr (inr (w, f))) = elim (Bool-cases (k == c.next)) [
  | inl q ↦ inr (inl (ground (arith, q)))
  | inr q ↦ inr (inr (w, find_buf-delete_key c.next k c.pending q ∙ f))
]

module _ (accepts : List Bytes → Bytes → Bool) where
  drain-Arrived : (fuel k : ℕ) (c : Collector) → Arrived k c → Arrived k (drain accepts fuel c)
  unfolding drain
  drain-Arrived zero k c h = h
  drain-Arrived (suc fuel) k c h = elim (Option-cases (find_buf c.next c.pending)) [
    | inl n ↦ rw (n, drain) h
    | inr (b, f) ↦
        rw (f, drain)
          (elim (Bool-cases (accepts c.written b)) [
            | inl y ↦ rw y (drain-Arrived fuel k _ (write_next-Arrived k c b h))
            | inr n ↦ rw n (inl refl)
          ])
  ]

  -- As many rounds as buffers wait are enough.
  drain-IsSettled :
      (fuel : ℕ) (c : Collector) → length c.pending ≤ fuel → IsSettled (drain accepts fuel c)
  unfolding drain
  drain-IsSettled zero c h = inr (find_buf_empty c.next c.pending h)
  drain-IsSettled (suc fuel) c h = elim (Option-cases (find_buf c.next c.pending)) [
    | inl n ↦ rw (n, drain) (inr n)
    | inr (b, f) ↦
        rw (f, drain)
          (elim (Bool-cases (accepts c.written b)) [
            | inl y ↦ rw y (
                drain-IsSettled fuel _
                  (omega (arith, h, length-delete_key_found c.next c.pending b f)))
            | inr n ↦ rw n (inl refl)
          ])
  ]

  take_buf-Arrived :
      (c : Collector) (i k : ℕ) (b : Bytes) → Arrived i c → Arrived i (take_buf accepts c k b)
  take_buf-Arrived c i k b h =
      if-intro (Arrived i) (k == c.next)
        (λ q.
          if-intro (Arrived i) (accepts c.written b)
            (λ y. drain-Arrived (length c.pending) i _ (earlier h)) (λ n. inl refl))
        (λ q. put h)
    where
      earlier : Arrived i c → Arrived i (write_next c b)
      earlier (inl s) = inl s
      earlier (inr (inl l)) = inr (inl (omega arith))
      earlier (inr (inr f)) = inr (inr f)

      put : Arrived i c → Arrived i (record c { pending = (k, b) ∷ delete_key k c.pending })
      put (inl s) = inl s
      put (inr (inl l)) = inr (inl l)
      put (inr (inr (w, f))) = inr (inr (find_buf-put_some i k b w c.pending f))

  take_buf-Arrived_self : (c : Collector) (k : ℕ) (b : Bytes) → Arrived k (take_buf accepts c k b)
  take_buf-Arrived_self c k b =
      if-intro (Arrived k) (k == c.next)
        (λ q.
          if-intro (Arrived k) (accepts c.written b)
            (λ y. drain-Arrived (length c.pending) k _ (inr (inl (ground (arith, q)))))
            (λ n. inl refl))
        (λ q. inr (inr (b, find_buf-put_self k b (delete_key k c.pending))))

  take_buf-IsSettled :
      (c : Collector) (k : ℕ) (b : Bytes) → IsSettled c → IsSettled (take_buf accepts c k b)
  take_buf-IsSettled c k b h =
      if-intro IsSettled (k == c.next)
        (λ q.
          if-intro IsSettled (accepts c.written b)
            (λ y. drain-IsSettled (length c.pending) _ (omega arith)) (λ n. inl refl))
        (λ q. elim h [ inl s ↦ inl s | inr f ↦ inr (find_buf-put c.next k b c.pending q ∙ f) ])

  take_result-Arrived :
      (c : Collector) (i k : ℕ) (r : Option Bytes)
      → Arrived i c
      → Arrived i (take_result accepts c k r)
  take_result-Arrived c i k none h = inl refl
  take_result-Arrived c i k (some b) h = take_buf-Arrived c i k b h

  take_result-Arrived_self :
      (c : Collector) (k : ℕ) (r : Option Bytes) → Arrived k (take_result accepts c k r)
  take_result-Arrived_self c k none = inl refl
  take_result-Arrived_self c k (some b) = take_buf-Arrived_self c k b

  take_result-IsSettled :
      (c : Collector) (k : ℕ) (r : Option Bytes)
      → IsSettled c
      → IsSettled (take_result accepts c k r)
  take_result-IsSettled c k none h = inl refl
  take_result-IsSettled c k (some b) h = take_buf-IsSettled c k b h

  pub collect-Arrived :
      (c : Collector) (r : ChunkResult) (i : ℕ) → Arrived i c → Arrived i (collect accepts c r)
  unfolding collect
  collect-Arrived c r i h =
      if-intro (Arrived i) c.stopped (λ y. h) (λ n. take_result-Arrived c i r.seq r.buf h)

  pub collect-Arrived_self : (c : Collector) (r : ChunkResult) → Arrived r.seq (collect accepts c r)
  unfolding collect
  collect-Arrived_self c r =
      if-intro (Arrived r.seq) c.stopped (λ y. inl y) (λ n. take_result-Arrived_self c r.seq r.buf)

  pub collect-IsSettled :
      (c : Collector) (r : ChunkResult) → IsSettled c → IsSettled (collect accepts c r)
  unfolding collect
  collect-IsSettled c r h =
      if-intro IsSettled c.stopped (λ y. h) (λ n. take_result-IsSettled c r.seq r.buf h)
