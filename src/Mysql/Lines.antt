-- ===== src/Mysql/Lines.antt =====
-- What `pushLine` does with a line of an INSERT statement.
use db_backup.Base.{
  ℕ, ◌-◌, ◌≡◌, refl, sym, ap, ◌∙◌, false, ◌&&◌, [], ◌∷◌, ◌++◌, append_assoc, Bytes, codes, ◌==◌,
  length, length-append, take, take-append, arith,
}
use db_backup.Text.{
  trim_space, trim_space-solid, has_prefix, has_suffix, has_suffix-last, trim_space-line, is_space,
  to_upper, upper,
}
use db_backup.Mysql.Splitter.{
  Splitter, neutral, scan, is_empty, ends_statement, flushed, done, close_if, push_line,
}

-- A text between two bytes that are no white space, of which the first begins no DELIMITER command.
pub record IsBlock (t : Bytes) : Type 0 where
  pub first : ℕ
  pub back : Bytes
  pub front : Bytes
  pub final : ℕ
  pub begins : t ≡ first ∷ back
  pub ends : t ≡ front ++ final ∷ []
  pub solid_first : is_space first ≡ false
  pub solid_final : is_space final ≡ false
  pub no_command : (upper first == b'D') ≡ false

abbrev pub at : Bytes → Splitter
at buf = record { buf = buf; delimiter = codes ";"; mode = neutral }

trimmed : (t : Bytes) → IsBlock t → trim_space t ≡ t
trimmed t b =
    trim_space-solid t b.front b.back b.first b.final b.begins b.ends b.solid_first b.solid_final

trimmed_line : (t : Bytes) → IsBlock t → trim_space (t ++ 10 ∷ []) ≡ t
trimmed_line t b =
    trim_space-line t b.front b.back b.first b.final b.begins b.ends b.solid_first b.solid_final

no_delimiter :
    (t : Bytes) → IsBlock t → has_prefix (to_upper (trim_space t)) (codes "DELIMITER ") ≡ false
unfolding has_prefix to_upper
no_delimiter t b =
    ap (λ s. has_prefix (to_upper s) (codes "DELIMITER ")) (trimmed t b ∙ b.begins)
    ∙ ap (λ x. x && has_prefix (to_upper b.back) (codes "ELIMITER ")) b.no_command

not_empty : (t : Bytes) → IsBlock t → is_empty (trim_space t) ≡ false
not_empty t b = ap is_empty (trimmed t b ∙ b.begins)

-- A line, behind which the splitter is neutral, goes to the buffer; the rest is `ends_statement`.
buffered :
    (buf line : Bytes)
    → IsBlock line
    → scan false neutral line ≡ neutral
    → push_line (at buf) line
      ≡ close_if (ends_statement (at (buf ++ line ++ 10 ∷ []))) (at (buf ++ line ++ 10 ∷ []))
unfolding push_line
buffered buf line b calm = rw (no_delimiter line b, not_empty line b, calm) refl

whole_text :
    (buf line : Bytes) → IsBlock (buf ++ line) → trim_space (buf ++ line ++ 10 ∷ []) ≡ buf ++ line
whole_text buf line b = trimmed_line (buf ++ line) b

pub push_line-goes_on :
    (buf line : Bytes)
    → IsBlock line
    → IsBlock (buf ++ line)
    → has_suffix (buf ++ line) (b';' ∷ []) ≡ false
    → scan false neutral line ≡ neutral
    → push_line (at buf) line ≡ (at (buf ++ line ++ 10 ∷ []), [])
unfolding ends_statement
push_line-goes_on buf line l b h calm =
    buffered buf line l calm ∙ rw (whole_text buf line b, h) refl

with_semicolon : (t : Bytes) → IsBlock t → IsBlock (t ++ b';' ∷ [])
unfolding is_space
with_semicolon t b = record {
  first = b.first;
  back = b.back ++ b';' ∷ [];
  front = t;
  final = b';';
  begins = ap (λ s. s ++ b';' ∷ []) b.begins;
  ends = refl;
  solid_first = b.solid_first;
  solid_final = refl;
  no_command = b.no_command;
}

without_semicolon : (t : Bytes) → take (length (t ++ b';' ∷ []) - 1) (t ++ b';' ∷ []) ≡ t
without_semicolon t = take-append t (b';' ∷ []) _ (omega (arith, length-append t (b';' ∷ [])))

done-block : (t : Bytes) → IsBlock t → done t ≡ t ∷ []
done-block [] b = absurd (nothing b.first b.back b.begins)
  where
    nothing : (c : ℕ) (s : Bytes) → [] ≡ c ∷ s → ⊥
    nothing c s e = cc
done-block (c ∷ t) b = refl

flushed-block :
    (stmt text : Bytes)
    → IsBlock stmt
    → text ≡ stmt ++ b';' ∷ []
    → flushed (at (text ++ 10 ∷ [])) ≡ stmt
unfolding flushed
flushed-block stmt text b e =
    rw
      (
        e,
        trimmed_line (stmt ++ b';' ∷ []) (with_semicolon stmt b),
        filled,
        has_suffix-last stmt b';' b';',
      )
      (ap trim_space (without_semicolon stmt) ∙ trimmed stmt b)
  where
    filled : is_empty (stmt ++ b';' ∷ []) ≡ false
    filled = ap (λ s. is_empty (s ++ b';' ∷ [])) b.begins

-- The line with the semicolon completes the statement.
pub push_line-ends :
    (buf body : Bytes)
    → IsBlock body
    → IsBlock (buf ++ body)
    → scan false neutral (body ++ b';' ∷ []) ≡ neutral
    → push_line (at buf) (body ++ b';' ∷ []) ≡ (at [], (buf ++ body) ∷ [])
unfolding ends_statement
push_line-ends buf body l b calm =
    buffered buf (body ++ b';' ∷ []) (with_semicolon body l) calm
    ∙ rw
        (
          regroup,
          trimmed_line (buf ++ body ++ b';' ∷ []) (with_semicolon (buf ++ body) b),
          has_suffix-last (buf ++ body) b';' b';',
          flushed-block (buf ++ body) (buf ++ body ++ b';' ∷ []) b refl,
          done-block (buf ++ body) b,
        )
        refl
  where
    regroup : buf ++ (body ++ b';' ∷ []) ≡ buf ++ body ++ b';' ∷ []
    regroup = sym (append_assoc buf body (b';' ∷ []))
