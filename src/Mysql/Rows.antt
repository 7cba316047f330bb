-- ===== src/Mysql/Rows.antt =====
-- `streamRows`, `escapeString`, `escapeBlob` and `quoteMySQLIdent` of
-- src/internal/database/engine/mysql/mysql.go.
use db_backup.Base.{
  ℕ, ◌+◌, ◌-◌, ◌/◌, ◌%◌, Bool, true, false, ◌&&◌, not, List, [], ◌∷◌, ◌++◌, map, Bytes, codes, ltb,
  leb, if◌then◌else◌, length, ℤ, pos, negsuc,
}
use db_backup.Text.{replace_byte, join}
use db_backup.Clock.{decimal}

unfoldable pub escape_string : Bytes → Bytes
unfolding replace_byte
escape_string s =
    let a = replace_byte s 92 (92 ∷ 92 ∷ []) in
    let b = replace_byte a 0 (92 ∷ b'0' ∷ []) in
    let c = replace_byte b 39 (92 ∷ 39 ∷ []) in
    let d = replace_byte c 34 (92 ∷ 34 ∷ []) in
    let e = replace_byte d 10 (92 ∷ b'n' ∷ []) in replace_byte e 13 (92 ∷ b'r' ∷ [])

unfoldable pub escape_blob : Bytes → Bytes
unfolding escape_string replace_byte
escape_blob s = replace_byte (escape_string s) 26 (92 ∷ b'Z' ∷ [])

unfoldable pub quote_mysql_ident : Bytes → Bytes
unfolding replace_byte
quote_mysql_ident s = (96 ∷ replace_byte s 96 (96 ∷ 96 ∷ [])) ++ 96 ∷ []

abbrev pub hex_digit : ℕ → ℕ
hex_digit n = if ltb n 10 then b'0' + n else b'a' + n - 10

-- `%x` of bytes.
unfoldable pub hex : Bytes → Bytes
hex [] = []
hex (c ∷ s) = hex_digit (c / 16 % 16) ∷ hex_digit (c % 16) ∷ hex s

unfoldable pub signed : ℤ → Bytes
unfolding decimal
signed (pos n) = decimal n
signed (negsuc n) = b'-' ∷ decimal (n + 1)

-- What the driver gives for a column; a float is the text that `%v` prints for it, and other types
-- are given by the text that is quoted for them.
pub data Value : Type 0 where
  null : Value
  bytes : Bool → Bytes → Value
  int64 : ℤ → Value
  float64 : Bytes → Value
  bool : Bool → Value
  text : Bytes → Value

abbrev pub literal : Bytes → Bytes
literal s = (39 ∷ s) ++ 39 ∷ []

-- The flag of `bytes` is `isBlobType` of the column.
unfoldable pub write_value : Bool → Value → Bytes
unfolding escape_string escape_blob hex signed
write_value raw_blobs null = codes "NULL"
write_value raw_blobs (bytes is_blob v) =
    if is_blob && not raw_blobs
    then codes "0x" ++ hex v
    else if is_blob
    then literal (escape_blob v)
    else literal (escape_string v)
write_value raw_blobs (int64 n) = signed n
write_value raw_blobs (float64 v) = v
write_value raw_blobs (bool b) = if b then codes "1" else codes "0"
write_value raw_blobs (text v) = literal (escape_string v)

unfoldable pub write_row : Bool → List Value → Bytes
unfolding write_value join
write_row raw_blobs values =
    b'(' ∷ (join (map (write_value raw_blobs) values) (codes ", ") ++ b')' ∷ [])

unfoldable pub insert_header : Bytes → List Bytes → Bytes
unfolding quote_mysql_ident join
insert_header table cols =
    codes "INSERT INTO "
    ++ quote_mysql_ident table
    ++ codes " ("
    ++ join (map quote_mysql_ident cols) (codes ", ")
    ++ codes ") VALUES\n"

-- The loop over the rows: what stands in the buffer, whether a batch is under way, and the texts
-- that are written to the dump, one for each `flush`.
module _ (raw_blobs : Bool) (header : Bytes) (batch_bytes : ℕ) where
  abbrev pub batch_end : Bytes
  batch_end = codes ";\n"

  unfoldable pub row_loop : Bytes → Bool → List (List Value) → List Bytes
  unfolding write_row
  row_loop sb under_way [] = if under_way then (sb ++ batch_end) ∷ [] else []
  row_loop sb under_way (row ∷ rows) =
      let front = if under_way then codes ",\n" else header in
      let sb = sb ++ front ++ write_row raw_blobs row in
      elim (ltb 0 batch_bytes && leb batch_bytes (length sb)) [
        | true ↦ (sb ++ batch_end) ∷ row_loop [] false rows
        | false ↦ row_loop sb true rows
      ]

unfoldable pub stream_rows : Bool → Bytes → List Bytes → ℕ → List (List Value) → List Bytes
unfolding row_loop insert_header
stream_rows raw_blobs table [] batch_bytes rows = []
stream_rows raw_blobs table (c ∷ cols) batch_bytes rows =
    row_loop raw_blobs (insert_header table (c ∷ cols)) batch_bytes [] false rows
