-- ===== src/Retention/Chain/Closure.antt =====
-- What `chain_dependencies` marks: exactly the names that a chain of `Base` fields reaches from an
-- incremental or differential backup. The walk breaks off at a name that is marked already, so this
-- rests on the marks being closed under `Base`.
use db_backup.Base.{
  ℕ, zero, suc, ◌+◌, ◌≡◌, ◌≢◌, ◌↔◌, refl, true, false, List, [], ◌∷◌, none, some, Bytes, bytes_eq,
  bytes_eq_iff, bytes_eq_sound, bytes_eq_refl, mem, length, arith, Bool-cases, Option-cases, In,
  inl, inr, ◌⊎◌,
}
use db_backup.Retention.Policy.{BackupEntry}
use db_backup.Retention.Chain.Walk.{
  full, find_entry, chain_walk, collect_chains, chain_dependencies, collect_chains_total,
}

-- The files that a restore of some backup of the listing goes through below the backup itself.
pub data Needed (bs : List BackupEntry) : Bytes → Type 0 where
  direct :
      (b : BackupEntry) (k : Bytes)
      → In b bs
      → bytes_eq b.strategy full ≡ false
      → b.base ≡ k
      → k ≢ []
      → Needed bs k
  further :
      (j : Bytes) (b : BackupEntry) (k : Bytes)
      → Needed bs j
      → find_entry bs j ≡ some b
      → b.base ≡ k
      → k ≢ []
      → Needed bs k

module _ (bs : List BackupEntry) where
  -- Closed under `Base`, but for the name that the walk is about to mark.
  abbrev ClosedBut : List Bytes → Bytes → Type 0
  ClosedBut needed pending =
      (j : Bytes) (b : BackupEntry)
      → mem j needed ≡ true
      → find_entry bs j ≡ some b
      → b.base ≢ []
      → (mem b.base needed ≡ true) ⊎ (b.base ≡ pending)

  abbrev Closed : List Bytes → Type 0
  Closed needed =
      (j : Bytes) (b : BackupEntry)
      → mem j needed ≡ true
      → find_entry bs j ≡ some b
      → b.base ≢ []
      → mem b.base needed ≡ true

  abbrev Keeps : List Bytes → List Bytes → Type 0
  Keeps needed out = (j : Bytes) → mem j needed ≡ true → mem j out ≡ true

  abbrev Marks : Bytes → List Bytes → Type 0
  Marks base out = base ≢ [] → mem base out ≡ true

  mark-ClosedBut :
      (k : Bytes) (e : BackupEntry) (needed : List Bytes)
      → ClosedBut needed k
      → find_entry bs k ≡ some e
      → ClosedBut (k ∷ needed) e.base
  unfolding mem
  mark-ClosedBut k e needed c f j b m g n = elim (Bool-cases (bytes_eq j k)) [
    | inl same ↦ inr (cc (bytes_eq_sound j k same))
    | inr other ↦ elim (c j b (ground arith) g n) [
      | inl old ↦ inl (ground arith)
      | inr new ↦ inl (ground (arith, bytes_eq_iff b.base k))
    ]
  ]

  mark-Closed :
      (k : Bytes) (needed : List Bytes)
      → ClosedBut needed k
      → find_entry bs k ≡ none
      → Closed (k ∷ needed)
  unfolding mem
  mark-Closed k needed c f j b m g n = elim (Bool-cases (bytes_eq j k)) [
    | inl same ↦ cc (bytes_eq_sound j k same)
    | inr other ↦ elim (c j b (ground arith) g n) [
      | inl old ↦ ground arith
      | inr new ↦ ground (arith, bytes_eq_iff b.base k)
    ]
  ]

  mark-Keeps : (k : Bytes) (needed : List Bytes) → Keeps needed (k ∷ needed)
  unfolding mem
  mark-Keeps k needed j m = ground arith

  mark_self : (k : Bytes) (needed : List Bytes) → mem k (k ∷ needed) ≡ true
  unfolding mem
  mark_self k needed = ground (arith, bytes_eq_refl k)

  walk-Closed :
      (fuel : ℕ) (base : Bytes) (needed out : List Bytes)
      → ClosedBut needed base
      → chain_walk fuel bs base needed ≡ some out
      → Closed out × Keeps needed out × Marks base out
  unfolding chain_walk
  walk-Closed zero base needed out c w = cc
  walk-Closed (suc fuel) [] needed out c w =
      let e : needed ≡ out = cc in
      rw (← e) (
        λ j b m g n. elim (c j b m g n) [ inl old ↦ old | inr new ↦ absurd (n new) ],
        λ j m. m,
        λ n. absurd (n refl),
      )
  walk-Closed (suc fuel) (h ∷ t) needed out c w = elim (Bool-cases (mem (h ∷ t) needed)) [
    | inl old ↦
        let e : needed ≡ out = ground arith in
        rw (← e)
          (λ j b m g n. elim (c j b m g n) [ inl o ↦ o | inr new ↦ rw new old ], λ j m. m, λ _. old)
    | inr new ↦ elim (Option-cases (find_entry bs (h ∷ t))) [
      | inl f ↦
          let e : (h ∷ t) ∷ needed ≡ out = ground arith in
          rw (← e) (
            mark-Closed (h ∷ t) needed c f,
            mark-Keeps (h ∷ t) needed,
            λ _. mark_self (h ∷ t) needed,
          )
      | inr (b, f) ↦
          let w' : chain_walk fuel bs b.base ((h ∷ t) ∷ needed) ≡ some out = ground arith in
          let (closed, keeps, _) =
            walk-Closed fuel b.base ((h ∷ t) ∷ needed) out (mark-ClosedBut (h ∷ t) b needed c f)
              w' in
          (
            closed,
            λ j m. keeps j (mark-Keeps (h ∷ t) needed j m),
            λ _. keeps (h ∷ t) (mark_self (h ∷ t) needed),
          )
    ]
  ]

  abbrev Covers : List BackupEntry → List Bytes → Type 0
  Covers rest out =
      (b : BackupEntry) → In b rest → bytes_eq b.strategy full ≡ false → Marks b.base out

  collect-Closed :
      (fuel : ℕ) (rest : List BackupEntry) (needed out : List Bytes)
      → Closed needed
      → collect_chains fuel bs rest needed ≡ some out
      → Closed out × Keeps needed out × Covers rest out
  unfolding collect_chains
  collect-Closed fuel [] needed out c w =
      let e : needed ≡ out = cc in rw (← e) (c, λ j m. m, λ b i. elim i [ ])
  collect-Closed fuel (b ∷ rest) needed out c w = elim (Bool-cases (bytes_eq b.strategy full)) [
    | inl e ↦
        let w' : collect_chains fuel bs rest needed ≡ some out = rw (e, collect_chains) at w in
        let (closed, keeps, covers) = collect-Closed fuel rest needed out c w' in
        (closed, keeps, λ x i f. elim i [ inl s ↦ cc | inr r ↦ covers x r f ])
    | inr e ↦ elim (Option-cases (chain_walk fuel bs b.base needed)) [
      | inl stuck ↦ cc (rw (e, stuck, collect_chains) at w)
      | inr (mid, went) ↦
          let w' : collect_chains fuel bs rest mid ≡ some out = rw (e, went, collect_chains) at w in
          let (c', k', marks) =
            walk-Closed fuel b.base needed mid (λ j x m g n. inl (c j x m g n)) went in
          let (closed, keeps, covers) = collect-Closed fuel rest mid out c' w' in
          (
            closed,
            λ j m. keeps j (k' j m),
            λ x i f. elim i [
              | inl s ↦ λ n. rw s (keeps b.base (marks (λ z. n (cc))))
              | inr r ↦ covers x r f
            ],
          )
    ]
  ]

  abbrev AllNeeded : List Bytes → Type 0
  AllNeeded needed = (j : Bytes) → mem j needed ≡ true → Needed bs j

  mark-AllNeeded :
      (k : Bytes) (needed : List Bytes) → AllNeeded needed → Needed bs k → AllNeeded (k ∷ needed)
  unfolding mem
  mark-AllNeeded k needed a n j m = elim (Bool-cases (bytes_eq j k)) [
    | inl same ↦ rw (bytes_eq_sound j k same) n
    | inr other ↦ a j (ground arith)
  ]

  walk-AllNeeded :
      (fuel : ℕ) (base : Bytes) (needed out : List Bytes)
      → AllNeeded needed
      → (base ≢ [] → Needed bs base)
      → chain_walk fuel bs base needed ≡ some out
      → AllNeeded out
  unfolding chain_walk
  walk-AllNeeded zero base needed out a n w = cc
  walk-AllNeeded (suc fuel) [] needed out a n w = let e : needed ≡ out = cc in rw (← e) a
  walk-AllNeeded (suc fuel) (h ∷ t) needed out a n w = elim (Bool-cases (mem (h ∷ t) needed)) [
    | inl old ↦ let e : needed ≡ out = ground arith in rw (← e) a
    | inr new ↦
        let here : Needed bs (h ∷ t) = n (λ z. cc) in
        let marked = mark-AllNeeded (h ∷ t) needed a here in
        elim (Option-cases (find_entry bs (h ∷ t))) [
          | inl f ↦ let e : (h ∷ t) ∷ needed ≡ out = ground arith in rw (← e) marked
          | inr (b, f) ↦
              let w' : chain_walk fuel bs b.base ((h ∷ t) ∷ needed) ≡ some out = ground arith in
              walk-AllNeeded fuel b.base ((h ∷ t) ∷ needed) out marked
                (λ m. Needed.further (h ∷ t) b b.base here f refl m) w'
        ]
  ]

  collect-AllNeeded :
      (fuel : ℕ) (rest : List BackupEntry) (needed out : List Bytes)
      → ((b : BackupEntry) → In b rest → In b bs)
      → AllNeeded needed
      → collect_chains fuel bs rest needed ≡ some out
      → AllNeeded out
  unfolding collect_chains
  collect-AllNeeded fuel [] needed out sub a w = let e : needed ≡ out = cc in rw (← e) a
  collect-AllNeeded fuel (b ∷ rest) needed out sub a w =
      elim (Bool-cases (bytes_eq b.strategy full)) [
        | inl e ↦
            collect-AllNeeded fuel rest needed out (λ x i. sub x (inr i)) a
              (rw (e, collect_chains) at w)
        | inr e ↦ elim (Option-cases (chain_walk fuel bs b.base needed)) [
          | inl stuck ↦ cc (rw (e, stuck, collect_chains) at w)
          | inr (mid, went) ↦
              collect-AllNeeded fuel rest mid out (λ x i. sub x (inr i))
                (walk-AllNeeded fuel b.base needed mid a
                  (λ n. Needed.direct b b.base (sub b (inl refl)) e refl n) went)
                (rw (e, went, collect_chains) at w)
        ]
      ]

Closed→mem :
    (bs : List BackupEntry) (out : List Bytes)
    → Closed bs out
    → Covers bs bs out
    → (k : Bytes) → Needed bs k
    → mem k out ≡ true
Closed→mem bs out c cov k (direct b _ i f e n) = rw (← e) (cov b i f (λ z. n (cc)))
Closed→mem bs out c cov k (further j b _ need f e n) =
    rw (← e) (c j b (Closed→mem bs out c cov j need) f (λ z. n (cc)))

nothing-Closed : (bs : List BackupEntry) → Closed bs []
unfolding mem
nothing-Closed bs j b m = cc

nothing-AllNeeded : (bs : List BackupEntry) → AllNeeded bs []
unfolding mem
nothing-AllNeeded bs j m = cc

-- The fuel is enough for every listing, cyclic chains of bases included: the names that the program
-- marks are computed, and a name is marked exactly if a chain of bases reaches it from an
-- incremental or differential backup of the listing.
pub chain_dependencies-iff_Needed :
    (bs : List BackupEntry)
    → (out : List Bytes) × (chain_dependencies bs ≡ some out)
      × ((k : Bytes) → (mem k out ≡ true) ↔ Needed bs k)
unfolding chain_dependencies
chain_dependencies-iff_Needed bs =
    let (out, e) = collect_chains_total (length bs + 1) bs bs [] (omega arith) in
    let (c, _, cov) = collect-Closed bs (length bs + 1) bs [] out (nothing-Closed bs) e in
    let a = collect-AllNeeded bs (length bs + 1) bs [] out (λ b i. i) (nothing-AllNeeded bs) e in
    (out, e, λ k. (a k, Closed→mem bs out c cov k))
