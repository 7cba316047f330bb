-- ===== src/Runner/Databases.antt =====
-- src/internal/scheduler/runner/all.go and `containsGlobals` of chain.go: which databases a run is for.
-- `path_match` is Go's `path.Match`. `to_lower` folds ASCII letters only, so names are as Go compares them
-- where their letters are ASCII.
use db_backup.Base.{
  Bool, false, not, ◌&&◌, ◌||◌, List, [], ◌∷◌, ◌++◌, Bytes, codes, bytes_eq, ltb, length,
  if◌then◌else◌, mem, keep_if,
}
use db_backup.Text.{has_prefix, equal_fold, to_lower, trim_space}
use db_backup.Config.{DatabaseList, is_excluded}

abbrev pub is_all_token : Bytes → Bool
is_all_token inc = equal_fold (trim_space inc) (codes "ALL")

unfoldable pub has_all_token : List Bytes → Bool
has_all_token [] = false
has_all_token (inc ∷ rest) = is_all_token inc || has_all_token rest

unfoldable pub should_split_databases : List Bytes → Bool
unfolding has_all_token
should_split_databases inc = has_all_token inc || ltb 1 (length inc)

unfoldable pub split_database_list : List Bytes → List Bytes
unfolding trim_space
split_database_list inc = keep_if (λ name. not (bytes_eq (trim_space name) [])) inc

-- `strings.Contains`
unfoldable pub contains_text : Bytes → Bytes → Bool
contains_text [] t = has_prefix [] t
contains_text (c ∷ s) t = has_prefix (c ∷ s) t || contains_text s t

abbrev pub is_globals : Bytes → Bool
is_globals name = contains_text name (codes "__globals__")

unfoldable pub contains_globals : List Bytes → Bool
unfolding contains_text
contains_globals [] = false
contains_globals (d ∷ rest) = is_globals d || contains_globals rest

-- The local function `add`, for each name in turn.
unfoldable pub add_names : List Bytes → List Bytes → List Bytes
unfolding mem to_lower
add_names seen [] = []
add_names seen (name ∷ names) =
    let more = name ∷ add_names (to_lower name ∷ seen) names in
    let fewer = add_names seen names in if mem (to_lower name) seen then fewer else more

abbrev pub is_extra : Bytes → Bool
is_extra inc = not (is_all_token inc) && not (bytes_eq inc [])

module _ (path_match : Bytes → Bytes → Bool) where
  -- The names that the two loops pass to `add`.
  abbrev pub offered : List Bytes → DatabaseList → List Bytes
  offered discovered list =
      keep_if (λ name. not (is_excluded path_match list name)) discovered
      ++ keep_if is_extra list.included

  unfoldable pub expand_all_include : List Bytes → DatabaseList → List Bytes
  unfolding add_names
  expand_all_include discovered list = add_names [] (offered discovered list)
