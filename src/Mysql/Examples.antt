-- ===== src/Mysql/Examples.antt =====
-- Tests of the statement splitter, and a run that meets the conditions of its theorem.
use db_backup.Base.{concat, ◌≡◌, refl, true, false, List, [], ◌∷◌, map, Bytes, codes, negsuc}
use db_backup.Text.{split}
use db_backup.Mysql.Splitter.{split_sql_statements}
use db_backup.Mysql.Rows.{
  Value, null, bytes, int64, text, escape_string, stream_rows, insert_header,
}
use db_backup.Mysql.Batches.{Batch, flat, statement}
use db_backup.Mysql.Statements.{split_sql_statements-stream_rows}

-- A semicolon at the end of a comment ends the statement around it.
comment_splits :
    split_sql_statements (codes "SELECT 1 -- one;\n + 2;\n")
    ≡ codes "SELECT 1 -- one" ∷ codes "+ 2" ∷ []
unfolding split_sql_statements split
comment_splits = refl

-- Inside of a literal it does not.
literal_holds :
    split_sql_statements (codes "SELECT 'a;\nb';\nDELIMITER $$\nBEGIN;\nEND$$\n")
    ≡ codes "SELECT 'a;\nb'" ∷ codes "BEGIN;\nEND" ∷ []
unfolding split_sql_statements split
literal_holds = refl

-- A value that tries to end its literal and the statement.
abbrev hostile : Bytes
hostile = codes "'); DROP TABLE t;\n-- \\"

abbrev two_rows : List (List Value)
two_rows = (text hostile ∷ null ∷ []) ∷ (bytes true (0 ∷ 255 ∷ []) ∷ int64 (negsuc 4) ∷ []) ∷ []

escaped : escape_string hostile ≡ codes "\\'); DROP TABLE t;\\n-- \\\\"
unfolding escape_string
escaped = refl

split_sql_statements-stream_rows_example :
    (gs : List Batch) × (flat gs ≡ two_rows)
    × (split_sql_statements
          (concat (stream_rows false (codes "t;") (codes "a" ∷ codes "b`" ∷ []) 40 two_rows))
        ≡ map (statement false (insert_header (codes "t;") (codes "a" ∷ codes "b`" ∷ []))) gs)
split_sql_statements-stream_rows_example =
    split_sql_statements-stream_rows false (codes "t;") (codes "a") (codes "b`" ∷ []) 40 two_rows
      (refl, (refl, tt)) ((refl, tt), ((refl, (refl, tt)), tt))
      ((tt, (tt, tt)), ((tt, (tt, tt)), tt))
