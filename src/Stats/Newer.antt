-- ===== src/Stats/Newer.antt =====
-- The order of versions: no version is newer than itself, and of two versions with readable cores at
-- most one is newer than the other.
use db_backup.Base.{
  ◌≡◌, refl, sym, ap, ◌∙◌, Bool, true, false, List, [], ◌∷◌, none, some, Bytes, bytes_eq_refl, ℤ,
  pos, ltb_ℤ, arith, Bool-cases, Option-cases, inl, inr,
}
use db_backup.Text.{trim_space, to_lower, split, atoi_value, bytes_lt}
use db_backup.Stats.Version.{
  Comparison, less, equal, greater, compare_segment, compare_segments, compare_cores, newer_tag,
  newer_version, other_branch, is_newer, split_version,
}

abbrev pub flipped : Comparison → Comparison
flipped less = greater
flipped equal = equal
flipped greater = less

ltb_ℤ-asym : (a b : ℤ) → ltb_ℤ a b ≡ true → ltb_ℤ b a ≡ false
ltb_ℤ-asym a b h = ground arith

compare_segment-flipped :
    (a b : ℤ) (x y : Comparison)
    → x ≡ flipped y
    → compare_segment a b x ≡ flipped (compare_segment b a y)
compare_segment-flipped a b x y e = elim (Bool-cases (ltb_ℤ a b)) [
  | inl low ↦ rw (low, ltb_ℤ-asym a b low)
  | inr not_low ↦ elim (Bool-cases (ltb_ℤ b a)) [
    | inl high ↦ rw (not_low, high)
    | inr same ↦ rw (not_low, same) e
  ]
]

-- The comparison of cores does not depend on which of them comes first.
pub compare_segments-flipped :
    (s t : List Bytes) → compare_segments s t ≡ flipped (compare_segments t s)
unfolding compare_segments
compare_segments-flipped [] [] = refl
compare_segments-flipped [] (b ∷ t) =
    compare_segment-flipped (pos 0) (atoi_value b) _ _ (compare_segments-flipped [] t)
compare_segments-flipped (a ∷ s) [] =
    compare_segment-flipped (atoi_value a) (pos 0) _ _ (compare_segments-flipped s [])
compare_segments-flipped (a ∷ s) (b ∷ t) =
    compare_segment-flipped (atoi_value a) (atoi_value b) _ _ (compare_segments-flipped s t)

bytes_lt-asym : (s t : Bytes) → bytes_lt s t ≡ true → bytes_lt t s ≡ false
unfolding bytes_lt
bytes_lt-asym s [] h = cc
bytes_lt-asym [] (d ∷ t) h = refl
bytes_lt-asym (c ∷ s) (d ∷ t) h = ground (arith, bytes_lt-asym s t)

newer_tag-asym : (s t : Bytes) → newer_tag s t ≡ true → newer_tag t s ≡ false
unfolding newer_tag
newer_tag-asym s t h = ground (arith, bytes_lt-asym s t)

abbrev verdict : Comparison → Bytes → Bytes → Bool
verdict less tag tag' = true
verdict equal tag tag' = newer_tag tag tag'
verdict greater tag tag' = false

verdict-asym :
    (x : Comparison) (s t : Bytes) → verdict (flipped x) s t ≡ true → verdict x t s ≡ false
verdict-asym less s t h = cc
verdict-asym equal s t h = newer_tag-asym s t h
verdict-asym greater s t h = refl

newer_version-verdict :
    (a b : Bytes × Bytes) → newer_version a b ≡ verdict (compare_cores a.0 b.0) a.1 b.1
unfolding newer_version
newer_version-verdict (core, tag) (core', tag') = by_result (compare_cores core core') refl
  where
    by_result :
        (x : Comparison)
        → compare_cores core core' ≡ x
        → newer_version (core, tag) (core', tag') ≡ verdict (compare_cores core core') tag tag'
    by_result less e = rw (e, newer_version)
    by_result equal e = rw (e, newer_version)
    by_result greater e = rw (e, newer_version)

compare_cores-flipped : (a b : Bytes) → compare_cores a b ≡ flipped (compare_cores b a)
unfolding compare_cores
compare_cores-flipped a b = compare_segments-flipped (split a b'.') (split b b'.')

newer_version-asym : (a b : Bytes × Bytes) → newer_version a b ≡ true → newer_version b a ≡ false
newer_version-asym a b h =
    newer_version-verdict b a
    ∙ verdict-asym (compare_cores b.0 a.0) a.1 b.1 (
        ap (λ x. verdict x a.1 b.1) (sym (compare_cores-flipped a.0 b.0))
        ∙ (sym (newer_version-verdict a b) ∙ h))

is_newer-some :
    (s t : Bytes) (a b : Bytes × Bytes)
    → split_version s ≡ some a
    → split_version t ≡ some b
    → is_newer s t ≡ newer_version a b
unfolding is_newer
is_newer-some s t a b e f = rw (e, is_newer) (rw f)

is_newer-none : (s t : Bytes) → split_version s ≡ none → is_newer s t ≡ other_branch s t
unfolding is_newer
is_newer-none s t e = rw (e, is_newer)

other_branch_same : (s : Bytes) → other_branch s s ≡ false
unfolding other_branch
other_branch_same s = ground (arith, bytes_eq_refl (to_lower (trim_space s)))

-- Of two versions with readable cores at most one is newer than the other.
pub is_newer-asym :
    (current candidate : Bytes) (a b : Bytes × Bytes)
    → split_version current ≡ some a
    → split_version candidate ≡ some b
    → is_newer current candidate ≡ true
    → is_newer candidate current ≡ false
is_newer-asym current candidate a b ea eb h =
    is_newer-some candidate current b a eb ea
    ∙ newer_version-asym a b (sym (is_newer-some current candidate a b ea eb) ∙ h)

both_ways : (x : Bool) → (x ≡ true → x ≡ false) → x ≡ false
both_ways true f = f refl
both_ways false f = refl

-- No version is newer than itself, readable or not.
pub is_newer_irrefl : (v : Bytes) → is_newer v v ≡ false
is_newer_irrefl v = elim (Option-cases (split_version v)) [
  | inl bad ↦ is_newer-none v v bad ∙ other_branch_same v
  | inr (a, e) ↦ is_newer-some v v a a e e ∙ both_ways (newer_version a a) (newer_version-asym a a)
]
