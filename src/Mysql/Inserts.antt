-- ===== src/Mysql/Inserts.antt =====
-- The rows of a table are written as statements that the splitter finds again.
use db_backup.Base.{
  ℕ, ◌≡◌, refl, sym, ap, ◌∙◌, subst, false, List, [], ◌∷◌, ◌++◌, append_assoc, Bytes, codes, ◌==◌,
  All, All-append,
}
use db_backup.Text.{join, split, has_suffix, has_suffix-last, is_space, upper}
use db_backup.Text.OneLine.{IsOneLine, split-line}
use db_backup.Mysql.Splitter.{Splitter, neutral, scan, scan_byte, push_line, push_lines}
use db_backup.Mysql.Literals.{PassesIn}
use db_backup.Mysql.Lines.{IsBlock, at, push_line-goes_on, push_line-ends}

abbrev pub line_break : Bytes
line_break = codes ",\n"

-- A row as it stands in a statement.
pub record IsRow (r : Bytes) : Type 0 where
  pub one_line : IsOneLine r
  pub passes : PassesIn neutral r
  pub inner : Bytes
  pub bracketed : r ≡ b'(' ∷ (inner ++ b')' ∷ [])

-- The beginning of a statement.
pub record IsStart (b : Bytes) : Type 0 where
  pub first : ℕ
  pub back : Bytes
  pub begins : b ≡ first ∷ back
  pub solid : is_space first ≡ false
  pub no_command : (upper first == b'D') ≡ false

row-IsBlock : (r : Bytes) (d : ℕ) → IsRow r → is_space d ≡ false → IsBlock (r ++ d ∷ [])
unfolding is_space upper
row-IsBlock r d k h = record {
  first = b'(';
  back = (k.inner ++ b')' ∷ []) ++ d ∷ [];
  front = r;
  final = d;
  begins = ap (λ s. s ++ d ∷ []) k.bracketed;
  ends = refl;
  solid_first = refl;
  solid_final = h;
  no_command = refl;
}

comma_solid : is_space b',' ≡ false
unfolding is_space
comma_solid = refl

bare-IsBlock : (r : Bytes) → IsRow r → IsBlock r
unfolding is_space upper
bare-IsBlock r k = record {
  first = b'(';
  back = k.inner ++ b')' ∷ [];
  front = b'(' ∷ k.inner;
  final = b')';
  begins = k.bracketed;
  ends = k.bracketed;
  solid_first = refl;
  solid_final = refl;
  no_command = refl;
}

started-IsBlock :
    (b front : Bytes) (d : ℕ) → IsStart b → is_space d ≡ false → IsBlock (b ++ (front ++ d ∷ []))
started-IsBlock b front d k h = record {
  first = k.first;
  back = k.back ++ (front ++ d ∷ []);
  front = b ++ front;
  final = d;
  begins = ap (λ s. s ++ (front ++ d ∷ [])) k.begins;
  ends = sym (append_assoc b front (d ∷ []));
  solid_first = k.solid;
  solid_final = h;
  no_command = k.no_command;
}

started_row : (b r : Bytes) → IsStart b → IsRow r → IsBlock (b ++ r)
unfolding is_space
started_row b r s k =
    subst (λ t. IsBlock (b ++ t)) (sym k.bracketed) (started-IsBlock b (b'(' ∷ k.inner) b')' s refl)

pub passed :
    (t : Bytes) (d : ℕ)
    → PassesIn neutral t
    → scan false neutral (d ∷ []) ≡ neutral
    → scan false neutral (t ++ d ∷ []) ≡ neutral
passed t d p h = p (d ∷ []) ∙ h

semicolon : scan false neutral (b';' ∷ []) ≡ neutral
unfolding scan scan_byte
semicolon = refl

comma : scan false neutral (b',' ∷ []) ≡ neutral
unfolding scan scan_byte
comma = refl

unfinished : (b r : Bytes) → has_suffix (b ++ (r ++ b',' ∷ [])) (b';' ∷ []) ≡ false
unfinished b r =
    ap (λ t. has_suffix t (b';' ∷ [])) (sym (append_assoc b r (b',' ∷ [])))
    ∙ has_suffix-last (b ++ r) b',' b';'

-- The rows behind the head, as the loop writes them.
abbrev pub body : Bytes → List Bytes → Bytes
body r [] = r ++ codes ";\n"
body r (s ∷ rs) = r ++ line_break ++ body s rs

-- One line, and the lines behind it.
pub push_line-then :
    (buf line rest : Bytes) (next : Splitter) (stmts : List Bytes)
    → IsOneLine line
    → push_line (at buf) line ≡ (next, stmts)
    → push_lines (at buf) (split (line ++ 10 ∷ rest) 10) ≡ stmts ++ push_lines next (split rest 10)
unfolding push_lines
push_line-then buf line rest next stmts one e =
    ap (push_lines (at buf)) (split-line line rest one)
    ∙ ap (λ (n, s). s ++ push_lines n (split rest 10)) e

pub body-statement :
    (r : Bytes) (rs : List Bytes) (b rest : Bytes)
    → IsRow r
    → All IsRow rs
    → IsStart b
    → push_lines (at b) (split (body r rs ++ rest) 10)
      ≡ (b ++ join (r ∷ rs) line_break) ∷ push_lines (at []) (split rest 10)
unfolding join
body-statement r [] b rest k h start =
    ap (λ t. push_lines (at b) (split t 10)) regroup
    ∙ push_line-then b (r ++ b';' ∷ []) rest _ _ (All-append _ r (b';' ∷ []) k.one_line (refl, tt))
        (push_line-ends b r (bare-IsBlock r k) (started_row b r start k)
          (passed r b';' k.passes semicolon))
  where
    regroup : r ++ codes ";\n" ++ rest ≡ r ++ b';' ∷ [] ++ 10 ∷ rest
    regroup = simp append_assoc
body-statement r (s ∷ rs) b rest k (h, hs) start =
    ap (λ t. push_lines (at b) (split t 10)) (regroup (body s rs))
    ∙ push_line-then b (r ++ b',' ∷ []) (body s rs ++ rest) _ _
        (All-append _ r (b',' ∷ []) k.one_line (refl, tt))
        (push_line-goes_on b (r ++ b',' ∷ []) (row-IsBlock r b',' k comma_solid)
          (started-IsBlock b r b',' start comma_solid) (unfinished b r)
          (passed r b',' k.passes comma))
    ∙ body-statement s rs (b ++ (r ++ b',' ∷ []) ++ 10 ∷ []) rest h hs
        (longer b (r ++ b',' ∷ []) start)
    ∙ ap (λ t. t ∷ push_lines (at []) (split rest 10)) (collect (join (s ∷ rs) line_break))
  where
    regroup : (t : Bytes) → r ++ line_break ++ t ++ rest ≡ r ++ b',' ∷ [] ++ 10 ∷ (t ++ rest)
    regroup t = simp append_assoc

    collect : (t : Bytes) → b ++ (r ++ b',' ∷ []) ++ 10 ∷ [] ++ t ≡ b ++ (r ++ line_break ++ t)
    collect t = simp append_assoc

    longer : (b t : Bytes) → IsStart b → IsStart (b ++ t ++ 10 ∷ [])
    longer b t k = record {
      first = k.first;
      back = k.back ++ t ++ 10 ∷ [];
      begins = ap (λ s. s ++ t ++ 10 ∷ []) k.begins;
      solid = k.solid;
      no_command = k.no_command;
    }
