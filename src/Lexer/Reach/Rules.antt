-- ===== src/Lexer/Reach/Rules.antt =====
-- The rules of the loop body before the fixed texts, src/lexer.c, and the bytes that they pass.
use lu_language.Prelude.{
  ℕ, Bytes, ◌&&◌, ◌||◌, List, [], ◌∷◌, ◌≡◌, ◌⊎◌, ◌==◌, isdigit, streq, codes, arith,
}
use lu_language.Lexer.Reach.{
  Reaches, here, next, Reaches-trans, Reaches-advance_by, Reaches-advance_while, Reaches-if,
  skip_while-progress, Moves, Moves-if, Moves-or,
}
use lu_language.Lexer.Reach.Readers.{
  Behind, read_word-Behind, read_string-Behind, read_string-progress, read_number-progress,
}
use lu_language.Lexer.Rules.Operators.{Op2, Op3, ops2, ops3, try_op2, try_op3, arrow, operator}
use lu_language.Lexer.Rules.Text.{
  at_comment_end, comment, skip_comment, newline, emit_string, plain_string, f_string,
  template_string, number, block_id, directive_word, directive, annotation, starts_with_q,
}
use lu_language.Lexer.State.{Lexer, cur, peek, advance, advance_by, skip_line, in_line}
use lu_language.Lexer.Strings.{at_open_guillemet}

-- Where a rule stands: at the byte that it is given, or behind the `$` that it is given.
abbrev pub At : ℕ → Lexer → Type 0
At c l = (c ≡ b'$') ⊎ (c ≡ cur l)

skip_line-progress : (l : Lexer) → cur l ≡ b'/' → Reaches (advance l) (skip_line l)
unfolding skip_line
skip_line-progress l e = skip_while-progress in_line l (rw e)

skip_comment-Reaches : (l : Lexer) → Reaches (advance l) (skip_comment l)
unfolding skip_comment advance_by
skip_comment-Reaches l =
    Reaches-trans (next (Reaches-advance_while _ _))
      (Reaches-if (at_comment_end _) _ _ (Reaches-advance_by 2 _) here)

pub comment-Moves : (c : ℕ) (l : Lexer) → c ≡ cur l → Moves l (comment c l)
unfolding comment
comment-Moves c l e =
    Moves-if l (c == b'/' && peek l 1 == b'/') _ _ (λ h. skip_line-progress l (ground arith))
      (Moves-if l (c == b'/' && peek l 1 == b'*') _ _ (λ _. skip_comment-Reaches l) tt)

pub newline-Moves : (c : ℕ) (l : Lexer) → Moves l (newline c l)
unfolding newline
newline-Moves c l = Moves-if l (c == b'\n') _ _ (λ _. here) tt

pub plain_string-Moves : (c : ℕ) (l : Lexer) → c ≡ cur l → Moves l (plain_string c l)
unfolding plain_string
plain_string-Moves c l e =
    Moves-if l (c == 0xc2 && peek l 1 == 0xab || c == b'"' || c == b'\'') _ _
      (λ h. read_string-progress l (rw e at h)) tt

emit_string-Moves :
    (l : Lexer) (size : ℕ) (mark : Bytes) (r : Bytes × Lexer)
    → Behind (advance l) r
    → Moves l (emit_string size mark r)
unfolding emit_string
emit_string-Moves l size mark (s, m) h = h

pub f_string-Moves : (c : ℕ) (l : Lexer) → Moves l (f_string c l)
unfolding f_string
f_string-Moves c l =
    Moves-if l
      (c == b'f' && (peek l 1 == b'"' || peek l 1 == b'\'' || peek l 1 == 0xc2 && peek l 2 == 0xab))
      _ _ (λ _. emit_string-Moves l 4200 (codes "$f") _ (read_string-Behind (advance l))) tt

pub template_string-Moves : (c : ℕ) (l : Lexer) → Moves l (template_string c l)
unfolding template_string
template_string-Moves c l =
    Moves-if l (c == b'$' && at_open_guillemet (advance l)) _ _
      (λ _. emit_string-Moves l 4096 (codes "$") _ (read_string-Behind (advance l))) tt

pub number-Moves : (c : ℕ) (l : Lexer) → At c l → Moves l (number c l)
unfolding number
number-Moves c l at =
    Moves-if l (isdigit c) _ _ (λ h. read_number-progress l (unfold isdigit in ground arith)) tt

block_id-Moves : (l m : Lexer) (w : Bytes) → Reaches (advance l) m → Moves l (block_id w m)
unfolding block_id
block_id-Moves l m w h =
    Moves-if l (cur m == b':') _ _ (λ _. Reaches-trans h (next (read_word-Behind (advance m)))) h

directive_word-Moves :
    (l m : Lexer) (w : Bytes) → Reaches (advance l) m → Moves l (directive_word w m)
unfolding directive_word
directive_word-Moves l m w h =
    Moves-if l (streq w (codes "define")) _ _ (λ _. h)
      (Moves-if l (streq w (codes "include")) _ _ (λ _. h)
        (Moves-if l (streq w (codes "pragma")) _ _ (λ _. h)
          (Moves-if l (streq w (codes "ifdef")) _ _ (λ _. h)
            (Moves-if l (streq w (codes "endif")) _ _ (λ _. h)
              (Moves-if l (starts_with_q w) _ _ (λ _. block_id-Moves l m w h) h)))))

pub directive-Moves : (c : ℕ) (l : Lexer) → Moves l (directive c l)
unfolding directive
directive-Moves c l =
    Moves-if l (c == b'#') _ _
      (λ _.
        Moves-if l (isdigit (cur (advance l))) _ _ (λ _. here)
          (directive_word-Moves l _ _ (read_word-Behind (advance l))))
      tt

pub annotation-Moves : (c : ℕ) (l : Lexer) → Moves l (annotation c l)
unfolding annotation
annotation-Moves c l = Moves-if l (c == b'@') _ _ (λ _. read_word-Behind (advance l)) tt

try_op3-Moves : (ops : List Op3) (c : ℕ) (l : Lexer) → Moves l (try_op3 ops c l)
unfolding try_op3 advance_by
try_op3-Moves [] c l = tt
try_op3-Moves (o ∷ more) c l =
    Moves-if l (c == o.first && peek l 1 == o.second && peek l 2 == o.third) _ _
      (λ _. Reaches-advance_by 2 (advance l)) (try_op3-Moves more c l)

try_op2-Moves : (ops : List Op2) (c : ℕ) (l : Lexer) → Moves l (try_op2 ops c l)
unfolding try_op2 advance_by
try_op2-Moves [] c l = tt
try_op2-Moves (o ∷ more) c l =
    Moves-if l (c == o.first && peek l 1 == o.second) _ _ (λ _. Reaches-advance_by 1 (advance l))
      (try_op2-Moves more c l)

arrow-Moves : (c : ℕ) (l : Lexer) → Moves l (arrow c l)
unfolding arrow advance_by
arrow-Moves c l =
    Moves-if l (c == 0xe2 && peek l 1 == 0x86 && peek l 2 == 0x92) _ _
      (λ _. Reaches-advance_by 2 (advance l))
      (Moves-if l (c == 0xe2 && peek l 1 == 0x86 && peek l 2 == 0x90) _ _
        (λ _. Reaches-advance_by 2 (advance l)) tt)

pub operator-Moves : (c : ℕ) (l : Lexer) → Moves l (operator c l)
unfolding operator
operator-Moves c l =
    Moves-or l _ _ (try_op3-Moves ops3 c l)
      (Moves-or l _ _ (try_op2-Moves ops2 c l) (arrow-Moves c l))
