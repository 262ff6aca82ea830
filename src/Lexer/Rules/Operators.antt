-- ===== src/Lexer/Rules/Operators.antt =====
-- The operators and the punctuation: the longer ones first.
use lu_language.Prelude.{ℕ, List, [], ◌∷◌, ◌&&◌, ◌==◌, if◌then◌else◌, codes, c_str}
use lu_language.Lexer.Action.{Action, pass, emit, ◌<|>◌}
use lu_language.Lexer.State.{Lexer, peek, advance, advance_by}
use lu_language.Lexer.Token.{
  TokenType, tok_unknown, tok_arrow, tok_rshift_eq, tok_urshift, tok_lshift_eq, tok_rshift,
  tok_larrow, tok_lshift, tok_dstar, tok_inc, tok_dec, tok_and, tok_or, tok_eq, tok_neq, tok_le,
  tok_ge, tok_ptr_access, tok_plus_eq, tok_minus_eq, tok_star_eq, tok_slash_eq, tok_percent_eq,
  tok_amp_eq, tok_pipe_eq, tok_caret_eq, tok_plus, tok_minus, tok_star, tok_slash, tok_percent,
  tok_amp, tok_pipe, tok_caret, tok_tilde, tok_bang, tok_lt, tok_gt, tok_question, tok_colon,
  tok_dot, tok_comma, tok_semicolon, tok_assign, tok_lparen, tok_rparen, tok_lbrace, tok_rbrace,
  tok_lbracket, tok_rbracket,
}

-- The tests are on `c`, `peek(l, 1)` and `peek(l, 2)`.
pub record Op3 : Type 0 where
  pub first : ℕ
  pub second : ℕ
  pub third : ℕ
  pub type : TokenType

pub record Op2 : Type 0 where
  pub first : ℕ
  pub second : ℕ
  pub type : TokenType

abbrev op3 : ℕ → ℕ → ℕ → TokenType → Op3
op3 a b c t = record { first = a; second = b; third = c; type = t }

abbrev op2 : ℕ → ℕ → TokenType → Op2
op2 a b t = record { first = a; second = b; type = t }

unfoldable pub ops3 : List Op3
ops3 =
    op3 b'>' b'>' b'>' tok_urshift
    ∷ op3 b'<' b'<' b'=' tok_lshift_eq
    ∷ op3 b'>' b'>' b'=' tok_rshift_eq
    ∷ []

unfoldable pub ops2 : List Op2
ops2 =
    op2 b'>' b'>' tok_rshift
    ∷ op2 b'<' b'-' tok_larrow
    ∷ op2 b'<' b'<' tok_lshift
    ∷ op2 b'*' b'*' tok_dstar
    ∷ op2 b'+' b'+' tok_inc
    ∷ op2 b'-' b'-' tok_dec
    ∷ op2 b'&' b'&' tok_and
    ∷ op2 b'|' b'|' tok_or
    ∷ op2 b'=' b'=' tok_eq
    ∷ op2 b'!' b'=' tok_neq
    ∷ op2 b'<' b'=' tok_le
    ∷ op2 b'>' b'=' tok_ge
    ∷ op2 b'-' b'>' tok_ptr_access
    ∷ op2 b'+' b'=' tok_plus_eq
    ∷ op2 b'-' b'=' tok_minus_eq
    ∷ op2 b'*' b'=' tok_star_eq
    ∷ op2 b'/' b'=' tok_slash_eq
    ∷ op2 b'%' b'=' tok_percent_eq
    ∷ op2 b'&' b'=' tok_amp_eq
    ∷ op2 b'|' b'=' tok_pipe_eq
    ∷ op2 b'^' b'=' tok_caret_eq
    ∷ []

unfoldable pub singles : List (ℕ × TokenType)
singles =
    (b'+', tok_plus)
    ∷ (b'-', tok_minus)
    ∷ (b'*', tok_star)
    ∷ (b'/', tok_slash)
    ∷ (b'%', tok_percent)
    ∷ (b'&', tok_amp)
    ∷ (b'|', tok_pipe)
    ∷ (b'^', tok_caret)
    ∷ (b'~', tok_tilde)
    ∷ (b'!', tok_bang)
    ∷ (b'<', tok_lt)
    ∷ (b'>', tok_gt)
    ∷ (b'?', tok_question)
    ∷ (b':', tok_colon)
    ∷ (b'.', tok_dot)
    ∷ (b',', tok_comma)
    ∷ (b';', tok_semicolon)
    ∷ (b'=', tok_assign)
    ∷ (b'(', tok_lparen)
    ∷ (b')', tok_rparen)
    ∷ (b'{', tok_lbrace)
    ∷ (b'}', tok_rbrace)
    ∷ (b'[', tok_lbracket)
    ∷ (b']', tok_rbracket)
    ∷ []

unfoldable pub try_op3 : List Op3 → ℕ → Lexer → Action
try_op3 [] c l = pass
try_op3 (o ∷ more) c l =
    if c == o.first && peek l 1 == o.second && peek l 2 == o.third
    then emit o.type (o.first ∷ o.second ∷ o.third ∷ []) (advance_by 3 l)
    else try_op3 more c l

unfoldable pub try_op2 : List Op2 → ℕ → Lexer → Action
try_op2 [] c l = pass
try_op2 (o ∷ more) c l =
    if c == o.first && peek l 1 == o.second
    then emit o.type (o.first ∷ o.second ∷ []) (advance_by 2 l)
    else try_op2 more c l

-- → and ←, three bytes each in UTF-8
unfoldable pub arrow : ℕ → Lexer → Action
arrow c l =
    if c == 0xe2 && peek l 1 == 0x86 && peek l 2 == 0x92
    then emit tok_arrow (codes "->") (advance_by 3 l)
    else if c == 0xe2 && peek l 1 == 0x86 && peek l 2 == 0x90
    then emit tok_larrow (codes "<-") (advance_by 3 l)
    else pass

unfoldable pub operator : ℕ → Lexer → Action
operator c l = try_op3 ops3 c l <|> try_op2 ops2 c l <|> arrow c l

-- The `switch` on a single byte.
unfoldable pub single_type : List (ℕ × TokenType) → ℕ → TokenType
single_type [] c = tok_unknown
single_type ((b, t) ∷ more) c = if c == b then t else single_type more c

unfoldable pub single_byte : ℕ → Lexer → Action
single_byte c l = emit (single_type singles c) (c_str (c ∷ [])) (advance l)
