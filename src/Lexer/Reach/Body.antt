-- ===== src/Lexer/Reach/Body.antt =====
-- The loop body of `lexer_tokenize`, src/lexer.c, and the bytes that it passes.
use lu_language.Prelude.{ℕ, ◌≡◌, refl, inl, inr, Bool-cases, ◌==◌, arith}
use lu_language.Lexer.Action.{Action, pass, again, emit, ◌<|>◌}
use lu_language.Lexer.Reach.{Reaches, here, next, Moves, Moves-or}
use lu_language.Lexer.Reach.Names.{named-Moves}
use lu_language.Lexer.Reach.Rules.{
  At, comment-Moves, newline-Moves, plain_string-Moves, f_string-Moves, template_string-Moves,
  number-Moves, directive-Moves, annotation-Moves, operator-Moves,
}
use lu_language.Lexer.Rules.Operators.{single_byte}
use lu_language.Lexer.State.{Lexer, cur, advance}
use lu_language.Lexer.Tokenizer.{literal, symbol, named, past_dollar, body}

literal-Moves : (c : ℕ) (l : Lexer) → c ≡ cur l → Moves l (literal c l)
unfolding literal
literal-Moves c l e = Moves-or l _ _ (comment-Moves c l e) (
    Moves-or l _ _ (newline-Moves c l)
      (Moves-or l _ _ (plain_string-Moves c l e) (f_string-Moves c l)))

symbol-Moves : (c : ℕ) (l : Lexer) → At c l → Moves l (symbol c l)
unfolding symbol
symbol-Moves c l at = Moves-or l _ _ (number-Moves c l at) (
    Moves-or l _ _ (directive-Moves c l)
      (Moves-or l _ _ (annotation-Moves c l) (operator-Moves c l)))

-- An action of at least one byte, and never `pass`.
abbrev pub Takes : Lexer → Action → Type 0
Takes l pass = ⊥
Takes l (again m) = Reaches (advance l) m
Takes l (emit t v m) = Reaches (advance l) m

Takes-or : (l : Lexer) (a b : Action) → Moves l a → Takes l b → Takes l (a <|> b)
Takes-or l pass b p q = q
Takes-or l (again m) b p q = p
Takes-or l (emit t v m) b p q = p

single_byte-Takes : (c : ℕ) (l : Lexer) → Takes l (single_byte c l)
unfolding single_byte
single_byte-Takes c l = here

Takes-next : (l : Lexer) (a : Action) → Takes (advance l) a → Takes l a
Takes-next l pass p = p
Takes-next l (again m) p = next p
Takes-next l (emit t v m) p = next p

rules-Takes : (c : ℕ) (l : Lexer) → At c l → Takes l (symbol c l <|> named c l <|> single_byte c l)
rules-Takes c l at =
    Takes-or l _ _ (symbol-Moves c l at)
      (Takes-or l _ _ (named-Moves c l at) (single_byte-Takes c l))

past_dollar-Takes :
    (c : ℕ) (l : Lexer)
    → c ≡ cur l
    → Takes l (
        symbol c (past_dollar c l)
        <|> named c (past_dollar c l)
        <|> single_byte c (past_dollar c l))
unfolding past_dollar
past_dollar-Takes c l e = elim (Bool-cases (c == b'$')) [
  | inl dollar ↦ rw dollar (Takes-next l _ (rules-Takes c (advance l) (inl (ground arith))))
  | inr other ↦ rw other (rules-Takes c l (inr e))
]

pub body-Takes : (l : Lexer) → Takes l (body (cur l) l)
unfolding body
body-Takes l =
    Takes-or l _ _ (literal-Moves (cur l) l refl)
      (Takes-or l _ _ (template_string-Moves (cur l) l) (past_dollar-Takes (cur l) l refl))
