-- ===== src/Mysql/Statements.antt =====
-- The text that `streamRows` writes is split into the statements that it was written as.
use db_backup.Base.{
  concat, ℕ, ◌≡◌, refl, sym, ap, ◌∙◌, subst, Bool, false, List, [], ◌∷◌, ◌++◌, append_assoc,
  append-nil, map, none, Bytes, codes, All, All-append, All-split, arith,
}
use db_backup.Text.{
  join, split, is_space, upper, has_suffix, has_suffix-last, trim_space, has_prefix, to_upper,
}
use db_backup.Text.OneLine.{IsOneLine}
use db_backup.Mysql.Splitter.{neutral, scan, push_lines, split_sql_statements, flushed}
use db_backup.Mysql.Rows.{
  Value, write_value, write_row, stream_rows, insert_header, quote_mysql_ident,
}
use db_backup.Mysql.Literals.{
  PassesIn, PassesIn-append, IsCalm-PassesIn, quote_mysql_ident-PassesIn,
}
use db_backup.Mysql.Values.{
  IsValue, write_row-PassesIn, write_row-IsOneLine, join-IsOneLine, separator, names-PassesIn,
  names-IsOneLine, quote_mysql_ident-IsOneLine,
}
use db_backup.Mysql.Lines.{IsBlock, at, push_line-goes_on}
use db_backup.Mysql.Inserts.{line_break, IsRow, IsStart, body, push_line-then, body-statement}
use db_backup.Mysql.Batches.{Batch, flat, statement, chunk, batched}

-- The first line of a statement.
pub record IsHead (h : Bytes) : Type 0 where
  pub one_line : IsOneLine h
  pub passes : PassesIn neutral h
  pub block : IsBlock h
  pub unfinished : has_suffix h (b';' ∷ []) ≡ false

body-join : (r : Bytes) (rs : List Bytes) → body r rs ≡ join (r ∷ rs) line_break ++ codes ";\n"
unfolding join
body-join r [] = refl
body-join r (s ∷ rs) =
    ap (λ t. r ++ line_break ++ t) (body-join s rs)
    ∙ sym (append_assoc (r ++ line_break) (join (s ∷ rs) line_break) (codes ";\n"))

head-IsStart : (h : Bytes) → IsHead h → IsStart (h ++ 10 ∷ [])
head-IsStart h k = record {
  first = k.block.first;
  back = k.block.back ++ 10 ∷ [];
  begins = ap (λ s. s ++ 10 ∷ []) k.block.begins;
  solid = k.block.solid_first;
  no_command = k.block.no_command;
}

scan_end : scan false neutral [] ≡ neutral
unfolding scan
scan_end = refl

-- The head, and then the rows of one batch.
batch-statement :
    (h r : Bytes) (rs : List Bytes) (rest : Bytes)
    → IsHead h
    → IsRow r
    → All IsRow rs
    → push_lines
        (at [])
        (split (h ++ 10 ∷ [] ++ join (r ∷ rs) line_break ++ codes ";\n" ++ rest) 10)
      ≡ (h ++ 10 ∷ [] ++ join (r ∷ rs) line_break) ∷ push_lines (at []) (split rest 10)
batch-statement h r rs rest k row rows =
    ap (λ t. push_lines (at []) (split t 10)) (regroup (join (r ∷ rs) line_break) (body-join r rs))
    ∙ push_line-then [] h (body r rs ++ rest) _ _ k.one_line
        (push_line-goes_on [] h k.block k.block k.unfinished calm)
    ∙ body-statement r rs (h ++ 10 ∷ []) rest row rows (head-IsStart h k)
  where
    calm : scan false neutral h ≡ neutral
    calm = ap (scan false neutral) (sym (append-nil h)) ∙ k.passes [] ∙ scan_end

    regroup :
        (x : Bytes)
        → body r rs ≡ x ++ codes ";\n"
        → h ++ 10 ∷ [] ++ x ++ codes ";\n" ++ rest ≡ h ++ 10 ∷ (body r rs ++ rest)
    regroup x e = simp (e, append_assoc)

-- What stands between the brackets of a row.
inner_of : Bool → List Value → Bytes
inner_of raw vs = join (map (write_value raw) vs) separator

write_row-brackets :
    (raw : Bool) (vs : List Value) → write_row raw vs ≡ b'(' ∷ (inner_of raw vs ++ b')' ∷ [])
unfolding write_row inner_of
write_row-brackets raw vs = refl

nothing_left : push_lines (at []) (split [] 10) ≡ []
unfolding push_lines split flushed trim_space has_prefix to_upper
nothing_left = refl

head_unfinished : (t : Bytes) → has_suffix (t ++ codes ") VALUES") (b';' ∷ []) ≡ false
head_unfinished t =
    ap (λ s. has_suffix s (b';' ∷ [])) (sym (append_assoc t (codes ") VALUE") (b'S' ∷ [])))
    ∙ has_suffix-last (t ++ codes ") VALUE") b'S' b';'

write_row-IsRow : (raw : Bool) (vs : List Value) → All IsValue vs → IsRow (write_row raw vs)
write_row-IsRow raw vs h = record {
  one_line = write_row-IsOneLine raw vs h;
  passes = write_row-PassesIn raw vs h;
  inner = inner_of raw vs;
  bracketed = write_row-brackets raw vs;
}

rows-IsRow :
    (raw : Bool) (rows : List (List Value))
    → All (All IsValue) rows
    → All IsRow (map (write_row raw) rows)
rows-IsRow raw [] h = tt
rows-IsRow raw (r ∷ rows) (h, hs) = (write_row-IsRow raw r h, rows-IsRow raw rows hs)

batches-statements :
    (raw : Bool) (h : Bytes) (batch_bytes : ℕ) (gs : List Batch)
    → IsHead h
    → All (All IsValue) (flat gs)
    → push_lines (at []) (split (concat (map (chunk raw (h ++ 10 ∷ []) batch_bytes) gs)) 10)
      ≡ map (statement raw (h ++ 10 ∷ [])) gs
batches-statements raw h batch_bytes [] k sound = nothing_left
batches-statements raw h batch_bytes (g ∷ gs) k (row, sound) =
    let (rows, rest) = All-split (All IsValue) g.rows (flat gs) sound in
    batch-statement h (write_row raw g.row) (map (write_row raw) g.rows) _ k
      (write_row-IsRow raw g.row row) (rows-IsRow raw g.rows rows)
    ∙ ap (λ t. statement raw (h ++ 10 ∷ []) g ∷ t) (batches-statements raw h batch_bytes gs k rest)

head_names : Bytes → List Bytes → Bytes
head_names table cols =
    codes "INSERT INTO "
    ++ quote_mysql_ident table
    ++ codes " ("
    ++ join (map quote_mysql_ident cols) separator

abbrev head_line : Bytes → List Bytes → Bytes
head_line table cols = head_names table cols ++ codes ") VALUES"

insert_header-line :
    (table : Bytes) (cols : List Bytes) → insert_header table cols ≡ head_line table cols ++ 10 ∷ []
unfolding insert_header head_names
insert_header-line table cols =
    sym (append_assoc (head_names table cols) (codes ") VALUES") (10 ∷ []))

head_names-PassesIn : (table : Bytes) (cols : List Bytes) → PassesIn neutral (head_names table cols)
unfolding head_names
head_names-PassesIn table cols =
    PassesIn-append neutral (codes "INSERT INTO " ++ quote_mysql_ident table ++ codes " (") _
      (PassesIn-append neutral (codes "INSERT INTO " ++ quote_mysql_ident table) (codes " (")
        (PassesIn-append neutral (codes "INSERT INTO ") (quote_mysql_ident table)
          (IsCalm-PassesIn (codes "INSERT INTO ") (ground arith))
          (quote_mysql_ident-PassesIn table))
        (IsCalm-PassesIn (codes " (") (ground arith)))
      (names-PassesIn cols)

head_names-IsOneLine :
    (table : Bytes) (cols : List Bytes)
    → IsOneLine table
    → All IsOneLine cols
    → IsOneLine (head_names table cols)
unfolding head_names
head_names-IsOneLine table cols t cs =
    All-append _ (codes "INSERT INTO " ++ quote_mysql_ident table ++ codes " (") _
      (All-append _ (codes "INSERT INTO " ++ quote_mysql_ident table) (codes " (")
        (All-append _ (codes "INSERT INTO ") (quote_mysql_ident table) (ground arith)
          (quote_mysql_ident-IsOneLine table t))
        (ground arith))
      (join-IsOneLine _ (names-IsOneLine cols cs))

head_names-begins :
    (table : Bytes) (cols : List Bytes) → (back : Bytes) × (head_names table cols ≡ b'I' ∷ back)
unfolding head_names
head_names-begins table cols = (_, refl)

head_line-IsHead :
    (table : Bytes) (cols : List Bytes)
    → IsOneLine table
    → All IsOneLine cols
    → IsHead (head_line table cols)
unfolding is_space upper
head_line-IsHead table cols t cs =
    let (back, begins) = head_names-begins table cols in
    record {
      one_line =
          All-append _ (head_names table cols) (codes ") VALUES")
            (head_names-IsOneLine table cols t cs) (ground arith);
      passes =
          PassesIn-append neutral (head_names table cols) (codes ") VALUES")
            (head_names-PassesIn table cols) (IsCalm-PassesIn (codes ") VALUES") (ground arith));
      block = record {
        first = b'I';
        back = back ++ codes ") VALUES";
        front = head_names table cols ++ codes ") VALUE";
        final = b'S';
        begins = ap (λ s. s ++ codes ") VALUES") begins;
        ends = sym (append_assoc (head_names table cols) (codes ") VALUE") (b'S' ∷ []));
        solid_first = refl;
        solid_final = refl;
        no_command = refl;
      };
      unfinished = head_unfinished (head_names table cols);
    }

-- Whatever the rows hold, the text that streamRows writes for a table is split into one INSERT
-- statement for each batch, in their order, and the batches hold the rows in theirs. The conditions:
-- no name has a line feed in it, and a float is printed in calm bytes.
pub split_sql_statements-stream_rows :
    (raw : Bool) (table c : Bytes) (cols : List Bytes) (batch_bytes : ℕ) (rows : List (List Value))
    → IsOneLine table
    → All IsOneLine (c ∷ cols)
    → All (All IsValue) rows
    → (gs : List Batch) × (flat gs ≡ rows)
      × (split_sql_statements (concat (stream_rows raw table (c ∷ cols) batch_bytes rows))
          ≡ map (statement raw (insert_header table (c ∷ cols))) gs)
unfolding split_sql_statements stream_rows
split_sql_statements-stream_rows raw table c cols batch_bytes rows t cs sound =
    let (gs, e, f) = batched raw (insert_header table (c ∷ cols)) batch_bytes rows none in
    (
      gs,
      f,
      ap (λ ts. push_lines (at []) (split (concat ts) 10)) e
          ∙ subst
              (λ h.
                push_lines (at []) (split (concat (map (chunk raw h batch_bytes) gs)) 10)
                ≡ map (statement raw h) gs)
              (sym (insert_header-line table (c ∷ cols)))
              (batches-statements raw (head_line table (c ∷ cols)) batch_bytes gs
                (head_line-IsHead table (c ∷ cols) t cs) (subst (All (All IsValue)) (sym f) sound)),
    )
