-- ===== src/Runner/Expand.antt =====
-- The databases that `expandAllInclude` of src/internal/scheduler/runner/all.go arrives at.
use db_backup.Base.{
  ◌≡◌, ◌≢◌, ◌↔◌, refl, sym, ◌∙◌, Bool, true, false, not, List, [], ◌∷◌, Bytes, bytes_eq,
  bytes_eq_iff, mem, if-intro, In, In-keep_if, keep_if-In, In-append_left, In-append_right,
  In-append_cases, All, All-intro, arith, ◌⊎◌, inl, inr, Bool-cases, keep_if, ◌||◌, or_split,
}
use db_backup.Text.{to_lower}
use db_backup.Config.{DatabaseList, is_excluded}
use db_backup.Runner.Databases.{is_all_token, is_extra, add_names, offered, expand_all_include}

-- One of the names is this one up to the case of its letters.
abbrev pub Names : Bytes → List Bytes → Type 0
Names n xs = (m : Bytes) × In m xs × (to_lower m ≡ to_lower n)

-- No two of the names differ in case only.
abbrev pub AreDistinct : List Bytes → Type 0
AreDistinct [] = Unit
AreDistinct (x ∷ xs) = All (λ y. to_lower y ≢ to_lower x) xs × AreDistinct xs

add_names-In : (names seen : List Bytes) (m : Bytes) → In m (add_names seen names) → In m names
unfolding add_names
add_names-In [] seen m i = absurd i
add_names-In (x ∷ names) seen m i = elim (Bool-cases (mem (to_lower x) seen)) [
  | inl y ↦ inr (add_names-In names seen m (rw y at i))
  | inr n ↦ elim (unfresh (rw n at i)) [
    | inl e ↦ inl e
    | inr k ↦ inr (add_names-In names (to_lower x ∷ seen) m k)
  ]
]
  where
    unfresh :
        In m (x ∷ add_names (to_lower x ∷ seen) names)
        → (m ≡ x) ⊎ In m (add_names (to_lower x ∷ seen) names)
    unfresh i = i

add_names-unseen :
    (names seen : List Bytes) (m : Bytes)
    → In m (add_names seen names)
    → mem (to_lower m) seen ≡ false
unfolding add_names mem
add_names-unseen [] seen m i = absurd i
add_names-unseen (x ∷ names) seen m i = elim (Bool-cases (mem (to_lower x) seen)) [
  | inl y ↦ add_names-unseen names seen m (rw y at i)
  | inr n ↦ fresh n (rw n at i) (λ k. add_names-unseen names (to_lower x ∷ seen) m k)
]
  where
    fresh :
        mem (to_lower x) seen ≡ false
        → In m (x ∷ add_names (to_lower x ∷ seen) names)
        → (In m (add_names (to_lower x ∷ seen) names)
            → mem (to_lower m) (to_lower x ∷ seen) ≡ false)
        → mem (to_lower m) seen ≡ false
    fresh n (inl e) f = rw e n
    fresh n (inr k) f = ground (arith, f k)

add_names-AreDistinct : (names seen : List Bytes) → AreDistinct (add_names seen names)
unfolding add_names mem
add_names-AreDistinct [] seen = tt
add_names-AreDistinct (x ∷ names) seen =
    if-intro AreDistinct (mem (to_lower x) seen) (λ y. add_names-AreDistinct names seen)
      (λ n. (
        All-intro (λ y. to_lower y ≢ to_lower x) (add_names (to_lower x ∷ seen) names)
            (λ m i e. apart m (add_names-unseen names (to_lower x ∷ seen) m i) e),
        add_names-AreDistinct names (to_lower x ∷ seen),
      ))
  where
    apart : (m : Bytes) → mem (to_lower m) (to_lower x ∷ seen) ≡ false → to_lower m ≡ to_lower x → ⊥
    apart m h e = ground (arith, h, e, bytes_eq_iff (to_lower m) (to_lower x))

-- A name that has not been seen is added, unless one like it is.
add_names-Names :
    (names seen : List Bytes) (n : Bytes)
    → In n names
    → (mem (to_lower n) seen ≡ true) ⊎ Names n (add_names seen names)
unfolding add_names mem
add_names-Names [] seen n i = absurd i
add_names-Names (x ∷ names) seen n (inl e) = elim (Bool-cases (mem (to_lower x) seen)) [
  | inl y ↦ inl (rw e y)
  | inr k ↦ inr (rw k (x, inl refl, rw e refl))
]
add_names-Names (x ∷ names) seen n (inr i) = elim (Bool-cases (mem (to_lower x) seen)) [
  | inl y ↦ rw y (add_names-Names names seen n i)
  | inr k ↦ rw k (widen (add_names-Names names (to_lower x ∷ seen) n i))
]
  where
    widen :
        (mem (to_lower n) (to_lower x ∷ seen) ≡ true)
          ⊎ Names n (add_names (to_lower x ∷ seen) names)
        → (mem (to_lower n) seen ≡ true) ⊎ Names n (x ∷ add_names (to_lower x ∷ seen) names)
    widen (inr (m, j, e)) = inr (m, inr j, e)
    widen (inl h) =
        elim (or_split (bytes_eq (to_lower n) (to_lower x)) (mem (to_lower n) seen) (joined h)) [
          | inl e ↦ inr (x, inl refl, sym ((bytes_eq_iff (to_lower n) (to_lower x)).0 e))
          | inr l ↦ inl l
        ]
      where
        joined :
            mem (to_lower n) (to_lower x ∷ seen) ≡ true
            → (bytes_eq (to_lower n) (to_lower x) || mem (to_lower n) seen) ≡ true
        joined h = ground (arith, h)

module _ (path_match : Bytes → Bytes → Bool) (discovered : List Bytes) (list : DatabaseList)
    (n : Bytes) where
  -- The server has the database, and no pattern excludes it.
  abbrev pub IsWanted : Type 0
  IsWanted =
      (m : Bytes) × In m discovered
      × (is_excluded path_match list m ≡ false)
      × (to_lower m ≡ to_lower n)

  -- The configuration names the database itself.
  abbrev pub IsNamed : Type 0
  IsNamed =
      (m : Bytes) × In m list.included
      × (is_all_token m ≡ false)
      × (m ≢ [])
      × (to_lower m ≡ to_lower n)

  wanted_or_named :
      (m : Bytes)
      → In m (offered path_match discovered list)
      → to_lower m ≡ to_lower n
      → IsWanted ⊎ IsNamed
  unfolding bytes_eq
  wanted_or_named m i e =
      elim (In-append_cases m (keep_if (λ x. not (is_excluded path_match list x)) discovered) _ i) [
        | inl l ↦
            let (j, h) = In-keep_if (λ x. not (is_excluded path_match list x)) discovered m l in
            inl (m, j, ground (arith, h), e)
        | inr r ↦
            let (j, h) = In-keep_if is_extra list.included m r in
            inr (m, j, ground (arith, h), (λ z. ground (arith, h, bytes_eq_iff m [], z)), e)
      ]

  offer : IsWanted ⊎ IsNamed → Names n (offered path_match discovered list)
  offer (inl (m, i, h, e)) = (
    m,
    In-append_left m _ (keep_if is_extra list.included)
        (keep_if-In (λ x. not (is_excluded path_match list x)) discovered m i (rw h refl)),
    e,
  )
  offer (inr (m, i, h, z, e)) = (
    m,
    In-append_right m (keep_if (λ x. not (is_excluded path_match list x)) discovered) _
        (keep_if-In is_extra list.included m i (ground (arith, h, z, bytes_eq_iff m []))),
    e,
  )

  arrives :
      Names n (offered path_match discovered list)
      → Names n (add_names [] (offered path_match discovered list))
  unfolding mem
  arrives (m, i, e) = elim (add_names-Names (offered path_match discovered list) [] m i) [
    | inl h ↦ cc
    | inr (k, j, f) ↦ (k, j, f ∙ e)
  ]

  -- No two of the databases to back up differ in case only, and up to case they are those that the
  -- server has and no pattern excludes, and those that the configuration names itself, other than by
  -- ALL or by an empty name.
  pub expand_all_include_iff :
      AreDistinct (expand_all_include path_match discovered list)
      × (Names n (expand_all_include path_match discovered list) ↔ (IsWanted ⊎ IsNamed))
  unfolding expand_all_include
  expand_all_include_iff = (
    add_names-AreDistinct (offered path_match discovered list) [],
    (
      λ (m, i, e). wanted_or_named m (add_names-In (offered path_match discovered list) [] m i) e,
      λ h. arrives (offer h),
    ),
  )
