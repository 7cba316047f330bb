-- ===== src/Runner/Fan.antt =====
-- `Run` of src/internal/scheduler/runner/runner.go where it calls itself: once for each database, or for
-- the databases and then for the globals. It goes three calls deep at most, since a run for one database
-- is not divided further. Each of the runs has its own world.
use db_backup.Base.{
  ◌≡◌, refl, sym, true, All, ◌∙◌, Bool, false, not, ◌&&◌, List, [], ◌∷◌, ◌++◌, Option, none, some,
  Bytes, codes, ltb, length, if◌then◌else◌, if-intro, map, keep_if, In-append_left, In-append_right,
  ◌⊎◌, inl, inr,
}
use db_backup.Text.{has_prefix, to_lower}
use db_backup.Config.{DatabaseList}
use db_backup.SortSlice.{SortSlice}
use db_backup.Storage.Interface.{Storage}
use db_backup.Retention.Listing.{Readers}
use db_backup.Runner.Databases.{
  has_all_token, should_split_databases, split_database_list, is_globals, contains_globals,
  expand_all_include,
}
use db_backup.Runner.Strategy.{Job, World, includes}
use db_backup.Runner.Run.{
  asks_latest, latest_name, Verdict, fine, failed, panicked, Hook, post, Tools, Broken, Result,
  run_one,
}
use db_backup.Runner.Outcome.{Reported, run_one_frame}

abbrev pub of_databases : List Bytes → Job → Job
of_databases names j = record j { databases = some (record { included = names; excluded = [] }) }

abbrev pub for_globals : Job → Job
for_globals j = of_databases (codes "__globals__" ∷ []) j

abbrev pub for_one : Job → Bytes → Job
for_one j name = record (of_databases (name ∷ []) j) { split_db = false }

abbrev is_postgres : Job → Bool
is_postgres j = has_prefix (to_lower j.db_type) (codes "postgres")

abbrev pub is_splitting : Job → Bool
is_splitting j = j.split_db && should_split_databases (includes j.databases)

-- The databases that are split off; none where they cannot be listed.
unfoldable pub split_names : (Bytes → Bytes → Bool) → World → DatabaseList → Option (List Bytes)
unfolding expand_all_include split_database_list has_all_token
split_names path_match w list =
    if has_all_token list.included
    then elim w.discovered [
      | none ↦ none
      | some names ↦ some (expand_all_include path_match names list)
    ]
    else some (split_database_list list.included)

abbrev names_of : (Bytes → Bytes → Bool) → World → Option DatabaseList → Option (List Bytes)
names_of path_match w none = some []
names_of path_match w (some list) = split_names path_match w list

unfoldable pub sub_jobs : Job → List Bytes → List Job
unfolding has_all_token to_lower
sub_jobs j names =
    map (for_one j) names
    ++ (if has_all_token (includes j.databases) && is_postgres j
        then record (for_globals j) { split_db = false } ∷ []
        else [])

abbrev pub without_globals : Job → List Bytes
without_globals j = keep_if (λ d. not (is_globals d)) (includes j.databases)

unfoldable pub has_globals_too : Job → Bool
unfolding contains_globals
has_globals_too j = ltb 1 (length (includes j.databases)) && contains_globals (includes j.databases)

abbrev rest_jobs : Job → List Bytes → List Job
rest_jobs j [] = []
rest_jobs j (d ∷ ds) = of_databases (d ∷ ds) j ∷ []

module _ (tools : Tools) (sorter : SortSlice) (st : Storage) (br : Broken st) (io : Readers)
    (world : Job → World) where
  open st use {State, content}

  -- One run after the other, up to the first that fails; the hooks are those of all.
  abbrev pub run_each :
      (Job → State → Result tools sorter st br io) → List Job → State → Result tools sorter st br io
  run_each run [] s = (fine, [], s)
  run_each run (j ∷ js) s =
      let (v, hooks, t) = run j s in
      elim v [
        | fine ↦ let (u, more, last) = run_each run js t in (u, hooks ++ more, last)
        | failed ↦ (failed, hooks, t)
        | panicked ↦ (panicked, hooks, t)
      ]

  abbrev run_single : Job → State → Result tools sorter st br io
  run_single j s = run_one tools sorter st br io (world j) j s

  unfoldable pub run_split : Job → State → Result tools sorter st br io
  unfolding should_split_databases split_names sub_jobs run_one
  run_split j s =
      if is_splitting j
      then if (world j).tls_builds
        then elim (names_of tools.path_match (world j) j.databases) [
          | none ↦ (failed, [], s)
          | some names ↦ run_each run_single (sub_jobs j names) s
        ]
        else (failed, [], s)
      else run_single j s

  unfoldable pub run : Job → State → Result tools sorter st br io
  unfolding run_split has_globals_too contains_globals
  run j s =
      if has_globals_too j
      then run_each run_split (rest_jobs j (without_globals j) ++ for_globals j ∷ []) s
      else run_split j s

  -- A path that a hook is told of, or a link to a latest backup where the job asks for one.
  abbrev pub IsOutput : Bool → List Hook → Bytes → Type 0
  IsOutput asks hooks q =
      Reported tools sorter st br io hooks q
      ⊎ ((asks ≡ true) × (name : Bytes) × (q ≡ codes "latest-" ++ name))

  module _ (asks : Bool) where
    -- What may have changed.
    abbrev Framed : State → Bytes → Result tools sorter st br io → Type 0
    Framed s q (v, hooks, t) = (content t q ≡ content s q) ⊎ IsOutput asks hooks q

    -- A job that asks for the link as the others do.
    abbrev IsAlike : Job → Type 0
    IsAlike j = asks_latest j ≡ asks

    Output-left :
        (hooks more : List Hook) (q : Bytes)
        → IsOutput asks hooks q
        → IsOutput asks (hooks ++ more) q
    Output-left hooks more q (inl (status, f, i, e)) =
        inl (status, f, In-append_left (post status f) hooks more i, e)
    Output-left hooks more q (inr l) = inr l

    Output-right :
        (hooks more : List Hook) (q : Bytes)
        → IsOutput asks more q
        → IsOutput asks (hooks ++ more) q
    Output-right hooks more q (inl (status, f, i, e)) =
        inl (status, f, In-append_right (post status f) hooks more i, e)
    Output-right hooks more q (inr l) = inr l

    join_runs :
        (s t last : State) (q : Bytes) (u : Verdict) (hooks more : List Hook)
        → (content t q ≡ content s q) ⊎ IsOutput asks hooks q
        → Framed t q (u, more, last)
        → Framed s q (u, hooks ++ more, last)
    join_runs s t last q u hooks more (inr r) k = inr (Output-left hooks more q r)
    join_runs s t last q u hooks more (inl e) (inr r) = inr (Output-right hooks more q r)
    join_runs s t last q u hooks more (inl e) (inl f) = inl (f ∙ e)

    next_run :
        (s : State) (q : Bytes) (v : Verdict) (hooks : List Hook) (t : State)
        (rest : Result tools sorter st br io)
        → Framed s q (v, hooks, t)
        → Framed t q rest
        → Framed s q (elim v [
          | fine ↦ let (u, more, last) = rest in (u, hooks ++ more, last)
          | failed ↦ (failed, hooks, t)
          | panicked ↦ (panicked, hooks, t)
        ])
    next_run s q fine hooks t (u, more, last) h k = join_runs s t last q u hooks more h k
    next_run s q failed hooks t rest h k = h
    next_run s q panicked hooks t rest h k = h

    run_each-Framed :
        (run : Job → State → Result tools sorter st br io) (q : Bytes) (js : List Job) (s : State)
        → All IsAlike js
        → ((j : Job) (t : State) → IsAlike j → Framed t q (run j t))
        → Framed s q (run_each run js s)
    run_each-Framed run q [] s a h = inl refl
    run_each-Framed run q (j ∷ js) s (alike, a) h =
        next_run s q (run j s).0 (run j s).1 (run j s).2 _ (h j s alike)
          (run_each-Framed run q js (run j s).2 a h)

    run_single-Framed : (q : Bytes) (j : Job) (s : State) → IsAlike j → Framed s q (run_single j s)
    unfolding latest_name
    run_single-Framed q j s alike = elim (run_one_frame tools sorter st br io (world j) j s q) [
      | inl e ↦ inl e
      | inr (d, inl r) ↦ inr (inl r)
      | inr (d, inr (a, e)) ↦ inr (inr (sym alike ∙ a, _, e))
    ]

    for_each-IsAlike :
        (j : Job) (names : List Bytes) (more : List Job)
        → IsAlike j
        → All IsAlike more
        → All IsAlike (map (for_one j) names ++ more)
    for_each-IsAlike j [] more a m = m
    for_each-IsAlike j (d ∷ names) more a m = (a, for_each-IsAlike j names more a m)

    sub_jobs-IsAlike : (j : Job) (names : List Bytes) → IsAlike j → All IsAlike (sub_jobs j names)
    unfolding sub_jobs
    sub_jobs-IsAlike j names a = for_each-IsAlike j names _ a (
        if-intro (All IsAlike) (has_all_token (includes j.databases) && is_postgres j)
          (λ y. (a, tt)) (λ n. tt))

    split_off-Framed :
        (q : Bytes) (j : Job) (o : Option (List Bytes)) (s : State)
        → IsAlike j
        → Framed s q (elim o [
          | none ↦ (failed, [], s)
          | some names ↦ run_each run_single (sub_jobs j names) s
        ])
    split_off-Framed q j none s a = inl refl
    split_off-Framed q j (some names) s a =
        run_each-Framed run_single q (sub_jobs j names) s (sub_jobs-IsAlike j names a)
          (run_single-Framed q)

    run_split-Framed : (q : Bytes) (j : Job) (s : State) → IsAlike j → Framed s q (run_split j s)
    unfolding run_split
    run_split-Framed q j s a =
        if-intro (Framed s q) (is_splitting j)
          (λ y.
            if-intro (Framed s q) (world j).tls_builds
              (λ t. split_off-Framed q j (names_of tools.path_match (world j) j.databases) s a)
              (λ n. inl refl))
          (λ n. run_single-Framed q j s a)

    parts-IsAlike :
        (j : Job) (names : List Bytes)
        → IsAlike j
        → All IsAlike (rest_jobs j names ++ for_globals j ∷ [])
    parts-IsAlike j [] a = (a, tt)
    parts-IsAlike j (d ∷ names) a = (a, (a, tt))

  -- However a run is divided among databases, and wherever it stops, a path whose content it has
  -- changed is a file of which it has told a hook, or the sidecar of such a file, or, where the job
  -- asks for links to the latest backups on a file system, a path that begins with "latest-".
  pub run_frame :
      (j : Job) (s : State) (q : Bytes)
      → (content (run j s).2 q ≡ content s q) ⊎ IsOutput (asks_latest j) (run j s).1 q
  unfolding run
  run_frame j s q =
      let asks = asks_latest j in
      if-intro (Framed asks s q) (has_globals_too j)
        (λ y.
          run_each-Framed asks run_split q (rest_jobs j (without_globals j) ++ for_globals j ∷ []) s
            (parts-IsAlike asks j (without_globals j) refl) (run_split-Framed asks q))
        (λ n. run_split-Framed asks q j s refl)
