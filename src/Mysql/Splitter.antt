-- ===== src/Mysql/Splitter.antt =====
-- `stmtSplitter` and `splitSQLStatements` of src/internal/database/engine/mysql/ops.go.
use db_backup.Base.{
  ℕ, Bool, true, false, ◌&&◌, ◌||◌, List, [], ◌∷◌, ◌++◌, Bytes, codes, ◌==◌, if◌then◌else◌, drop,
}
use db_backup.Text.{trim_space, trim_suffix, has_prefix, has_suffix, to_upper, split}

-- The five flags of the splitter, of which at most one is set.
pub data Mode : Type 0 where
  neutral in_single in_double in_backtick in_line_comment in_block_comment : Mode

pub record Splitter : Type 0 where
  pub buf : Bytes
  pub delimiter : Bytes
  pub mode : Mode

abbrev pub new_splitter : Splitter
new_splitter = record { buf = []; delimiter = codes ";"; mode = neutral }

abbrev pub starts_with_byte : Bytes → ℕ → Bool
starts_with_byte [] d = false
starts_with_byte (c ∷ s) d = c == d

-- `line[i+1] == '-'` with the end of the line or white space behind it.
abbrev pub dash_comment : Bytes → Bool
dash_comment [] = false
dash_comment (c ∷ []) = c == b'-'
dash_comment (c ∷ d ∷ s) = c == b'-' && (d == b' ' || d == 9 || d == 13)

-- One round of the loop of `scan` at byte `c` with the rest of the line behind it: the new flags,
-- and whether the next byte is passed over.
unfoldable pub scan_byte : Mode → ℕ → Bytes → Mode × Bool
scan_byte in_line_comment c rest = (in_line_comment, false)
scan_byte in_block_comment c rest =
    if c == b'*' && starts_with_byte rest b'/' then (neutral, true) else (in_block_comment, false)
scan_byte in_single c rest =
    if c == 92
    then (in_single, true)
    else if c == 39
    then if starts_with_byte rest 39 then (in_single, true) else (neutral, false)
    else (in_single, false)
scan_byte in_double c rest =
    if c == 92 then (in_double, true) else if c == 34 then (neutral, false) else (in_double, false)
scan_byte in_backtick c rest = if c == 96 then (neutral, false) else (in_backtick, false)
scan_byte neutral c rest =
    if c == 39
    then (in_single, false)
    else if c == 34
    then (in_double, false)
    else if c == 96
    then (in_backtick, false)
    else if c == b'#' || (c == b'-' && dash_comment rest)
    then (in_line_comment, false)
    else if c == b'/' && starts_with_byte rest b'*'
    then (in_block_comment, true)
    else (neutral, false)

-- The loop; the flag passes over a byte.
unfoldable pub scan : Bool → Mode → Bytes → Mode
unfolding scan_byte
scan skip mode [] = mode
scan true mode (c ∷ s) = scan false mode s
scan false mode (c ∷ s) = let (next, skip) = scan_byte mode c s in scan skip next s

-- `neutral()` and not in a line comment.
abbrev pub is_neutral : Mode → Bool
is_neutral neutral = true
is_neutral _ = false

abbrev pub is_empty : Bytes → Bool
is_empty [] = true
is_empty (c ∷ s) = false

unfoldable pub ends_statement : Splitter → Bool
unfolding trim_space has_suffix
ends_statement sp = elim sp.delimiter [
  | [] ↦ false
  | c ∷ s ↦ is_neutral sp.mode && has_suffix (trim_space sp.buf) (c ∷ s)
]

-- The statement that `flush` returns; it empties the buffer.
unfoldable pub flushed : Splitter → Bytes
unfolding trim_space has_suffix trim_suffix
flushed sp =
    let s = trim_space sp.buf in
    if is_empty s then [] else elim sp.delimiter [
      | [] ↦ s
      | c ∷ d ↦ if has_suffix s (c ∷ d) then trim_space (trim_suffix s (c ∷ d)) else s
    ]

-- A statement that is not empty.
abbrev pub done : Bytes → List Bytes
done [] = []
done (c ∷ s) = (c ∷ s) ∷ []

abbrev pub clear_line_comment : Mode → Mode
clear_line_comment in_line_comment = neutral
clear_line_comment mode = mode

abbrev pub close_if : Bool → Splitter → Splitter × List Bytes
close_if false sp = (sp, [])
close_if true sp = (record sp { buf = [] }, done (flushed sp))

unfoldable pub push_line : Splitter → Bytes → Splitter × List Bytes
unfolding scan ends_statement flushed trim_space has_prefix to_upper
push_line sp line =
    let trimmed = trim_space line in
    if is_neutral sp.mode && has_prefix (to_upper trimmed) (codes "DELIMITER ")
    then (record sp { buf = []; delimiter = trim_space (drop 10 trimmed) }, done (flushed sp))
    else if is_empty trimmed && is_empty sp.buf
    then (record sp { mode = clear_line_comment sp.mode }, [])
    else let next : Splitter = record sp {
      buf = sp.buf ++ line ++ 10 ∷ [];
      mode = clear_line_comment (scan false sp.mode line);
    } in
      close_if (ends_statement next) next

unfoldable pub push_lines : Splitter → List Bytes → List Bytes
unfolding push_line
push_lines sp [] = done (flushed sp)
push_lines sp (line ∷ rest) = let (next, stmts) = push_line sp line in stmts ++ push_lines next rest

unfoldable pub split_sql_statements : Bytes → List Bytes
unfolding push_lines
split_sql_statements data_text = push_lines new_splitter (split data_text 10)
