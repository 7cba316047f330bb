-- ===== src/Stats/Version.antt =====
-- The comparison of versions: src/internal/stats/version_compare.go. Texts are ASCII.
use db_backup.Base.{
  ℕ, Bool, true, false, not, ◌&&◌, ◌||◌, List, [], ◌∷◌, Option, none, some, Bytes, codes, bytes_eq,
  ◌==◌, leb, if◌then◌else◌, ℤ, pos, ltb_ℤ, any_of,
}
use db_backup.Text.{trim_space, to_lower, has_prefix, has_suffix, split, atoi, atoi_value, bytes_lt}

abbrev is_core_byte : ℕ → Bool
is_core_byte c = c == b'.' || (leb b'0' c && leb c b'9')

-- The loop that looks for the first byte behind the core: the core and the tag.
unfoldable pub cut_core : Bytes → Bytes × Bytes
cut_core [] = ([], [])
cut_core (c ∷ s) =
    let (core, tag) = cut_core s in if is_core_byte c then (c ∷ core, tag) else ([], c ∷ s)

abbrev starts_with_dot : Bytes → Bool
starts_with_dot [] = false
starts_with_dot (c ∷ s) = c == b'.'

-- `strings.Contains(s, "..")`
unfoldable pub has_double_dot : Bytes → Bool
has_double_dot [] = false
has_double_dot (c ∷ s) = (c == b'.' && starts_with_dot s) || has_double_dot s

abbrev reads : Bytes → Bool
reads s = elim (atoi s) [ none ↦ false | some n ↦ true ]

-- The loop over the segments.
unfoldable pub all_read : List Bytes → Bool
all_read [] = true
all_read (p ∷ ps) = reads p && all_read ps

unfoldable pub split_version : Bytes → Option (Bytes × Bytes)
unfolding cut_core has_double_dot all_read
split_version text =
    let (core, tag) = cut_core (to_lower (trim_space text)) in
    if bytes_eq core []
      || has_prefix core (codes ".")
      || has_suffix core (codes ".")
      || has_double_dot core
    then none
    else if all_read (split core b'.')
    then some (core, tag)
    else none

abbrev branch_prefixes : List Bytes
branch_prefixes =
    codes "develop-"
    ∷ codes "develop_"
    ∷ codes "dev-"
    ∷ codes "dev_"
    ∷ codes "beta-"
    ∷ codes "beta_"
    ∷ codes "edge-"
    ∷ codes "edge_"
    ∷ codes "alpha-"
    ∷ codes "alpha_"
    ∷ codes "rc-"
    ∷ codes "rc_"
    ∷ []

unfoldable pub is_branch_version : Bytes → Bool
is_branch_version v = any_of (λ p. has_prefix (to_lower (trim_space v)) p) branch_prefixes

-- The results -1, 0 and 1.
pub data Comparison : Type 0 where
  less equal greater : Comparison

abbrev pub compare_segment : ℤ → ℤ → Comparison → Comparison
compare_segment a b rest = if ltb_ℤ a b then less else if ltb_ℤ b a then greater else rest

-- The loop over the segments; a missing one counts as 0.
unfoldable pub compare_segments : List Bytes → List Bytes → Comparison
compare_segments [] [] = equal
compare_segments [] (b ∷ bs) = compare_segment (pos 0) (atoi_value b) (compare_segments [] bs)
compare_segments (a ∷ rest) [] = compare_segment (atoi_value a) (pos 0) (compare_segments rest [])
compare_segments (a ∷ rest) (b ∷ bs) =
    compare_segment (atoi_value a) (atoi_value b) (compare_segments rest bs)

unfoldable pub compare_cores : Bytes → Bytes → Comparison
unfolding compare_segments
compare_cores a b = compare_segments (split a b'.') (split b b'.')

-- The last `switch`, on the tags.
unfoldable pub newer_tag : Bytes → Bytes → Bool
newer_tag current candidate =
    if bytes_eq current [] && not (bytes_eq candidate [])
    then false
    else if not (bytes_eq current []) && bytes_eq candidate []
    then true
    else bytes_lt current candidate

-- From the comparison of the cores on.
unfoldable pub newer_version : Bytes × Bytes → Bytes × Bytes → Bool
unfolding compare_cores newer_tag
newer_version (core, tag) (core', tag') = elim (compare_cores core core') [
  | greater ↦ false
  | less ↦ true
  | equal ↦ newer_tag tag tag'
]

-- What a version that cannot be split comes to.
unfoldable pub other_branch : Bytes → Bytes → Bool
unfolding is_branch_version
other_branch current candidate =
    if is_branch_version current
    then not (bytes_eq (to_lower (trim_space current)) (to_lower (trim_space candidate)))
    else false

unfoldable pub is_newer : Bytes → Bytes → Bool
unfolding newer_version other_branch
is_newer current candidate = elim (split_version current) [
  | none ↦ other_branch current candidate
  | some a ↦ elim (split_version candidate) [
    | none ↦ other_branch current candidate
    | some b ↦ newer_version a b
  ]
]

unfoldable pub is_image_stale : Bytes → Bytes → Bool
unfolding is_newer
is_image_stale running available =
    if bytes_eq running [] || bytes_eq available [] then false else is_newer running available
