-- ===== src/Mysql/Batches.antt =====
-- The batches of `streamRows`, and the statements that the splitter makes of them.
use db_backup.Base.{
  ℕ, ◌≡◌, refl, sym, ap, ◌∙◌, Bool, true, false, ◌&&◌, List, [], ◌∷◌, ◌++◌, append_assoc, map,
  Option, none, some, Bytes, codes, ltb, leb, length, if◌then◌else◌, Bool-cases, inl, inr,
}
use db_backup.Text.{join}
use db_backup.Mysql.Rows.{Value, write_row, row_loop}
use db_backup.Mysql.Inserts.{line_break}

-- The rows of one statement, at least one.
pub record Batch : Type 0 where
  pub row : List Value
  pub rows : List (List Value)

abbrev pub flat : List Batch → List (List Value)
flat [] = []
flat (g ∷ gs) = g.row ∷ g.rows ++ flat gs

abbrev pub written_rows : Bool → Batch → Bytes
written_rows raw g = join (write_row raw g.row ∷ map (write_row raw) g.rows) line_break

-- The statement of a batch.
abbrev pub statement : Bool → Bytes → Batch → Bytes
statement raw header g = header ++ written_rows raw g

module _ (raw : Bool) (header : Bytes) (batch_bytes : ℕ) where
  abbrev buffer : Option Batch → Bytes
  buffer none = []
  buffer (some g) = statement raw header g

  abbrev under_way : Option Batch → Bool
  under_way none = false
  under_way (some g) = true

  abbrev pending : Option Batch → List (List Value)
  pending none = []
  pending (some g) = g.row ∷ g.rows

  abbrev add_row : Option Batch → List Value → Batch
  add_row none r = record { row = r; rows = [] }
  add_row (some g) r = record g { rows = g.rows ++ r ∷ [] }

  join-add :
      (t : Bytes) (ts : List Bytes) (u : Bytes)
      → join (t ∷ ts ++ u ∷ []) line_break ≡ join (t ∷ ts) line_break ++ line_break ++ u
  unfolding join
  join-add t [] u = refl
  join-add t (s ∷ ts) u =
      ap (λ r. t ++ line_break ++ r) (join-add s ts u) ∙ regroup (join (s ∷ ts) line_break)
    where
      regroup :
          (x : Bytes)
          → t ++ line_break ++ (x ++ line_break ++ u) ≡ t ++ line_break ++ x ++ line_break ++ u
      regroup x = simp append_assoc

  map-add :
      (rs : List (List Value)) (r : List Value)
      → map (write_row raw) (rs ++ r ∷ []) ≡ map (write_row raw) rs ++ write_row raw r ∷ []
  map-add [] r = refl
  map-add (s ∷ rs) r = ap (λ t. write_row raw s ∷ t) (map-add rs r)

  buffer-add :
      (st : Option Batch) (r : List Value)
      → buffer st ++ (if under_way st then line_break else header) ++ write_row raw r
        ≡ buffer (some (add_row st r))
  unfolding join
  buffer-add none r = refl
  buffer-add (some g) r =
      regroup (written_rows raw g) (write_row raw r)
      ∙ ap (λ t. header ++ t)
          (sym (join-add (write_row raw g.row) (map (write_row raw) g.rows) (write_row raw r))
            ∙ ap (λ m. join (write_row raw g.row ∷ m) line_break) (sym (map-add g.rows r)))
    where
      regroup : (x w : Bytes) → header ++ x ++ line_break ++ w ≡ header ++ (x ++ line_break ++ w)
      regroup x w = simp append_assoc

  pending-add :
      (st : Option Batch) (r : List Value) → pending (some (add_row st r)) ≡ pending st ++ r ∷ []
  pending-add none r = refl
  pending-add (some g) r = refl

  abbrev pub chunk : Batch → Bytes
  chunk g = statement raw header g ++ codes ";\n"

  -- What the loop writes from here on: the batch under way and those behind it.
  abbrev Written : Option Batch → List (List Value) → Type 0
  Written st rows =
      (gs : List Batch) × (row_loop raw header batch_bytes (buffer st) (under_way st) rows
        ≡ map chunk gs)
      × (flat gs ≡ pending st ++ rows)

  abbrev maybe : Option Batch → List Batch
  maybe none = []
  maybe (some g) = g ∷ []

  abbrev is_full : Bytes → Bool
  is_full sb = ltb 0 batch_bytes && leb batch_bytes (length sb)

  abbrev next_out : Bool → Bytes → List (List Value) → List Bytes
  next_out true sb rows = (sb ++ codes ";\n") ∷ row_loop raw header batch_bytes [] false rows
  next_out false sb rows = row_loop raw header batch_bytes sb true rows

  row_loop-cons :
      (sb : Bytes) (b : Bool) (r : List Value) (rows : List (List Value))
      → row_loop raw header batch_bytes sb b (r ∷ rows)
        ≡ next_out
            (is_full (sb ++ (if b then line_break else header) ++ write_row raw r))
            (sb ++ (if b then line_break else header) ++ write_row raw r)
            rows
  unfolding row_loop
  row_loop-cons sb b r rows =
      elim (Bool-cases (is_full (sb ++ (if b then line_break else header) ++ write_row raw r))) [
        | inl e ↦ rw (e, row_loop) refl
        | inr e ↦ rw (e, row_loop) refl
      ]

  row_loop-nil :
      (st : Option Batch)
      → row_loop raw header batch_bytes (buffer st) (under_way st) [] ≡ map chunk (maybe st)
  unfolding row_loop
  row_loop-nil none = refl
  row_loop-nil (some g) = refl

  row_loop-next :
      (st : Option Batch) (r : List Value) (rows : List (List Value))
      → row_loop raw header batch_bytes (buffer st) (under_way st) (r ∷ rows)
        ≡ next_out (is_full (buffer (some (add_row st r)))) (buffer (some (add_row st r))) rows
  row_loop-next st r rows =
      row_loop-cons (buffer st) (under_way st) r rows
      ∙ ap (λ sb. next_out (is_full sb) sb rows) (buffer-add st r)

  pub batched : (rows : List (List Value)) (st : Option Batch) → Written st rows
  batched [] none = ([], row_loop-nil none, refl)
  batched [] (some g) = (g ∷ [], row_loop-nil (some g), refl)
  batched (r ∷ rows) st = elim (Bool-cases (is_full (buffer (some (add_row st r))))) [
    | inl full ↦
        let (gs, e, f) = batched rows none in
        (
          add_row st r ∷ gs,
          row_loop-next st r rows
              ∙ ap (λ b. next_out b (buffer (some (add_row st r))) rows) full
              ∙ ap (λ t. chunk (add_row st r) ∷ t) e,
          ap (λ t. (add_row st r).row ∷ (add_row st r).rows ++ t) f ∙ shifted st r rows,
        )
    | inr room ↦
        let (gs, e, f) = batched rows (some (add_row st r)) in
        (
          gs,
          row_loop-next st r rows
              ∙ ap (λ b. next_out b (buffer (some (add_row st r))) rows) room
              ∙ e,
          f ∙ shifted st r rows,
        )
  ]
    where
      shifted :
          (st : Option Batch) (r : List Value) (rows : List (List Value))
          → pending (some (add_row st r)) ++ rows ≡ pending st ++ r ∷ rows
      shifted none r rows = refl
      shifted (some g) r rows = ap (λ t. g.row ∷ t) (append_assoc g.rows (r ∷ []) rows)
