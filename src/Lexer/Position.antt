-- ===== src/Lexer/Position.antt =====
-- Lines and columns: the counters of src/lexer.c against the text that has been read.
pub mod Tokens
use mathlib.Core.List.{reverse, reverse-append}
use lu_language.Prelude.{
  ℕ, zero, suc, ◌+◌, ◌≤◌, Bytes, Bool, true, false, not, [], ◌∷◌, ◌++◌, append_assoc, append-nil,
  length, length-append, take, take_while, ◌≡◌, refl, sym, ap, ◌∙◌, inl, inr, Bool-cases,
  if◌then◌else◌, ◌==◌, c_str, arith,
}
use lu_language.Lexer.Reach.{Reaches, here, next, advance_end}
use lu_language.Lexer.Scan.{advance_cons}
use lu_language.Lexer.State.{Lexer, lexer_new, advance, step_over}

abbrev pub newlines : Bytes → ℕ
newlines [] = 0
newlines (c ∷ cs) = (if c == b'\n' then 1 else 0) + newlines cs

abbrev pub not_newline : ℕ → Bool
not_newline c = not (c == b'\n')

-- The line and the column, from 1, of the byte behind a text.
abbrev pub line_behind : Bytes → ℕ
line_behind read = newlines read + 1

abbrev pub col_behind : Bytes → ℕ
col_behind read = length (take_while not_newline (reverse read)) + 1

newlines-append : (xs ys : Bytes) → newlines (xs ++ ys) ≡ newlines xs + newlines ys
newlines-append [] ys = omega arith
newlines-append (x ∷ xs) ys = omega (arith, newlines-append xs ys)

newlines_at : (c : ℕ) → (c == b'\n') ≡ true → newlines (c ∷ []) ≡ 1
newlines_at c e = rw e

newlines_off : (c : ℕ) → (c == b'\n') ≡ false → newlines (c ∷ []) ≡ 0
newlines_off c e = rw e

reverse-concat : (xs : Bytes) (c : ℕ) → reverse (xs ++ (c ∷ [])) ≡ c ∷ reverse xs
reverse-concat xs c = reverse-append xs (c ∷ [])

col_behind_at : (read : Bytes) (c : ℕ) → (c == b'\n') ≡ true → 1 ≡ col_behind (read ++ (c ∷ []))
col_behind_at read c e = rw (reverse-concat, e)

col_behind_off :
    (read : Bytes) (c : ℕ)
    → (c == b'\n') ≡ false
    → col_behind (read ++ (c ∷ [])) ≡ col_behind read + 1
col_behind_off read c e = rw (reverse-concat, e) (omega arith)

-- The lexer stands in `src` behind the text `read`.
pub record Stands (src : Bytes) (l : Lexer) : Type 0 where
  pub read : Bytes
  pub splits : src ≡ read ++ l.rest
  pub pos_is : l.pos ≡ length read
  pub line_is : l.line ≡ line_behind read
  pub col_is : l.col ≡ col_behind read

pub lexer_new-Stands : (src : Bytes) → Stands (c_str src) (lexer_new src)
unfolding lexer_new
lexer_new-Stands src = record {
  read = [];
  splits = refl;
  pos_is = refl;
  line_is = refl;
  col_is = refl;
}

step_over-Stands :
    (src read : Bytes) (l : Lexer) (c : ℕ) (cs : Bytes)
    → src ≡ read ++ (c ∷ cs)
    → l.pos ≡ length read
    → l.line ≡ line_behind read
    → l.col ≡ col_behind read
    → Stands src (step_over c cs l)
step_over-Stands src read l c cs splits pos line col = elim (Bool-cases (c == b'\n')) [
  | inl at ↦ rw at (record {
    read = read ++ (c ∷ []);
    splits = split;
    pos_is = longer;
    line_is = omega (arith, line, newlines-append read (c ∷ []), newlines_at c at);
    col_is = col_behind_at read c at;
  })
  | inr off ↦ rw off (record {
    read = read ++ (c ∷ []);
    splits = split;
    pos_is = longer;
    line_is = omega (arith, line, newlines-append read (c ∷ []), newlines_off c off);
    col_is = omega (arith, col, col_behind_off read c off);
  })
]
  where
    split : src ≡ (read ++ (c ∷ [])) ++ cs
    split = splits ∙ sym (append_assoc read (c ∷ []) cs)

    longer : l.pos + 1 ≡ length (read ++ (c ∷ []))
    longer = omega (arith, pos, length-append read (c ∷ []))

pub advance-Stands : (src : Bytes) (l : Lexer) → Stands src l → Stands src (advance l)
advance-Stands src l s = go l.rest refl
  where
    go : (rest : Bytes) → l.rest ≡ rest → Stands src (advance l)
    go [] e = rw (advance_end l e) s
    go (c ∷ cs) e = rw (advance_cons l e) (
        step_over-Stands src s.read l c cs (s.splits ∙ ap (λ r. s.read ++ r) e) s.pos_is s.line_is
          s.col_is)

pub Reaches-Stands : (src : Bytes) {l m : Lexer} → Reaches l m → Stands src l → Stands src m
Reaches-Stands src here s = s
Reaches-Stands src (next r) s = Reaches-Stands src r (advance-Stands src _ s)
