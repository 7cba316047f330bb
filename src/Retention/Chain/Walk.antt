-- ===== src/Retention/Chain/Walk.antt =====
-- The walk along `Base` and its termination. The inner `for` loop over the backups is `find_entry`.
-- The outer `for base != ""` takes fuel: each round but the last marks the name of a backup that was
-- not marked before, so one round more than there are backups is enough.
use db_backup.Base.{
  ℕ, zero, suc, ◌+◌, ◌≤◌, ◌<◌, ◌≡◌, refl, false, List, [], ◌∷◌, Option, none, some, Bytes, codes,
  bytes_eq, bytes_eq_iff, mem, if◌then◌else◌, length, arith, Bool-cases, Option-cases, inl, inr,
}
use db_backup.Retention.Policy.{BackupEntry}

abbrev pub full : Bytes
full = codes "full"

-- The first backup of that name.
unfoldable pub find_entry : List BackupEntry → Bytes → Option BackupEntry
find_entry [] name = none
find_entry (b ∷ bs) name = if bytes_eq b.file_name name then some b else find_entry bs name

unfoldable pub chain_walk : ℕ → List BackupEntry → Bytes → List Bytes → Option (List Bytes)
chain_walk zero bs base needed = none
chain_walk (suc fuel) bs [] needed = some needed
chain_walk (suc fuel) bs (c ∷ s) needed =
    if mem (c ∷ s) needed then some needed else elim (find_entry bs (c ∷ s)) [
      | none ↦ some ((c ∷ s) ∷ needed)
      | some b ↦ chain_walk fuel bs b.base ((c ∷ s) ∷ needed)
    ]

-- The loop over the backups: full ones are passed over.
unfoldable pub collect_chains :
    ℕ → List BackupEntry → List BackupEntry → List Bytes → Option (List Bytes)
unfolding chain_walk
collect_chains fuel bs [] needed = some needed
collect_chains fuel bs (b ∷ rest) needed =
    elim (if bytes_eq b.strategy full then some needed else chain_walk fuel bs b.base needed) [
      | none ↦ none
      | some needed' ↦ collect_chains fuel bs rest needed'
    ]

unfoldable pub chain_dependencies : List BackupEntry → Option (List Bytes)
unfolding collect_chains
chain_dependencies bs = collect_chains (length bs + 1) bs bs []

-- How many backups are not marked yet.
unfoldable pub unneeded : List BackupEntry → List Bytes → ℕ
unneeded [] needed = 0
unneeded (b ∷ bs) needed = (if mem b.file_name needed then 0 else 1) + unneeded bs needed

unneeded-le : (bs : List BackupEntry) (needed : List Bytes) → unneeded bs needed ≤ length bs
unfolding unneeded
unneeded-le [] needed = omega arith
unneeded-le (b ∷ bs) needed = ground (arith, unneeded-le bs needed)

unneeded_mono :
    (bs : List BackupEntry) (k : Bytes) (needed : List Bytes)
    → unneeded bs (k ∷ needed) ≤ unneeded bs needed
unfolding unneeded mem
unneeded_mono [] k needed = omega arith
unneeded_mono (b ∷ bs) k needed = ground (arith, unneeded_mono bs k needed)

-- Marking the name of a backup that was not marked makes one less.
unneeded_find :
    (bs : List BackupEntry) (k : Bytes) (needed : List Bytes) (b : BackupEntry)
    → find_entry bs k ≡ some b
    → mem k needed ≡ false
    → unneeded bs (k ∷ needed) < unneeded bs needed
unfolding unneeded mem find_entry
unneeded_find [] k needed b h m = cc
unneeded_find (e ∷ bs) k needed b h m = ground (
  arith,
  unneeded_find bs k needed b,
  unneeded_mono bs k needed,
  bytes_eq_iff e.file_name k,
  bytes_eq_iff k e.file_name,
)

pub chain_walk_total :
    (fuel : ℕ) (bs : List BackupEntry) (base : Bytes) (needed : List Bytes)
    → unneeded bs needed < fuel
    → (out : List Bytes) × (chain_walk fuel bs base needed ≡ some out)
unfolding chain_walk
chain_walk_total zero bs base needed h = elim h [ ]
chain_walk_total (suc fuel) bs [] needed h = (needed, refl)
chain_walk_total (suc fuel) bs (c ∷ s) needed h = elim (Bool-cases (mem (c ∷ s) needed)) [
  | inl m ↦ (needed, rw m)
  | inr m ↦ elim (Option-cases (find_entry bs (c ∷ s))) [
    | inl f ↦ ((c ∷ s) ∷ needed, rw (m, f))
    | inr (b, f) ↦
        let (out, e) =
          chain_walk_total fuel bs b.base ((c ∷ s) ∷ needed)
            (omega (arith, unneeded_find bs (c ∷ s) needed b f m)) in
        (out, rw (m, f) e)
  ]
]

pub collect_chains_total :
    (fuel : ℕ) (bs rest : List BackupEntry) (needed : List Bytes)
    → length bs < fuel
    → (out : List Bytes) × (collect_chains fuel bs rest needed ≡ some out)
unfolding collect_chains
collect_chains_total fuel bs [] needed h = (needed, refl)
collect_chains_total fuel bs (b ∷ rest) needed h = elim (Bool-cases (bytes_eq b.strategy full)) [
  | inl e ↦
      let (out, c) = collect_chains_total fuel bs rest needed h in (out, rw (e, collect_chains) c)
  | inr e ↦
      let (out, w) =
        chain_walk_total fuel bs b.base needed (omega (arith, unneeded-le bs needed)) in
      let (out', c) = collect_chains_total fuel bs rest out h in (out', rw (e, w, collect_chains) c)
]
