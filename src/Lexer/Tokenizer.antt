-- ===== src/Lexer/Tokenizer.antt =====
-- `lexer_tokenize` of src/lexer.c: the loop over the rules.
use lu_language.Prelude.{
  ℕ, zero, suc, ◌+◌, Bytes, Bool, true, false, List, [], ◌∷◌, Option, none, some, length, ◌==◌,
  if◌then◌else◌, codes,
}
use lu_language.Lexer.Action.{Action, pass, again, emit, ◌<|>◌}
use lu_language.Lexer.Rules.Commands.{game_command, distance, command_word, definition}
use lu_language.Lexer.Rules.Keywords.{lang_decl, slash_keyword, word}
use lu_language.Lexer.Rules.Operators.{operator, single_byte}
use lu_language.Lexer.Rules.Text.{
  comment, newline, plain_string, f_string, template_string, number, directive, annotation,
}
use lu_language.Lexer.State.{Lexer, lexer_new, cur, advance, skip_spaces}
use lu_language.Lexer.Token.{Token, TokenType, tok_eof}

abbrev pub make_tok : TokenType → Bytes → ℕ → ℕ → Token
make_tok t v line col = record { type = t; value = v; line = line; col = col }

unfoldable pub literal : ℕ → Lexer → Action
literal c l = comment c l <|> newline c l <|> plain_string c l <|> f_string c l

-- The rules behind `$`.
unfoldable pub symbol : ℕ → Lexer → Action
symbol c l = number c l <|> directive c l <|> annotation c l <|> operator c l

unfoldable pub named : ℕ → Lexer → Action
named c l =
    lang_decl c l
    <|> slash_keyword l
    <|> game_command l
    <|> distance l
    <|> command_word c l
    <|> definition l
    <|> word c l

-- Where a `$` opens no template, the lexer has passed it when the later rules are tried.
unfoldable pub past_dollar : ℕ → Lexer → Lexer
past_dollar c l = if c == b'$' then advance l else l

-- The body at the byte `c`, behind the blanks.
unfoldable pub body : ℕ → Lexer → Action
body c l =
    literal c l
    <|> template_string c l
    <|> symbol c (past_dollar c l)
    <|> named c (past_dollar c l)
    <|> single_byte c (past_dollar c l)

abbrev pub is_nil : Bytes → Bool
is_nil [] = true
is_nil (_ ∷ _) = false

-- `l->pos >= l->len`
unfoldable pub at_end : Lexer → Bool
at_end l = is_nil l.rest

abbrev pub eof : Lexer → List Token
eof l = make_tok tok_eof (codes "") l.line l.col ∷ []

abbrev add_token : Token → Option (List Token) → Option (List Token)
add_token t none = none
add_token t (some ts) = some (t ∷ ts)

-- The end of a round that began at `m`: `onward` is the loop.
abbrev pub continue_with : (Lexer → Option (List Token)) → Lexer → Action → Option (List Token)
continue_with onward m pass = none
continue_with onward m (again n) = onward n
continue_with onward m (emit t v n) = add_token (make_tok t v m.line m.col) (onward n)

-- The tokens that are read from `l` on. `none` says that the fuel ran out.
unfoldable pub tokenize_on : ℕ → Lexer → Option (List Token)
tokenize_on zero l = none
tokenize_on (suc fuel) l =
    let m = skip_spaces l in
    let round = continue_with (λ n. tokenize_on fuel n) m (body (cur m) m) in
    if at_end l then some (eof l) else if at_end m then some (eof m) else round

unfoldable pub lexer_tokenize : Lexer → Option (List Token)
lexer_tokenize l = tokenize_on (length l.rest + 1) l

unfoldable pub tokenize : Bytes → Option (List Token)
tokenize src = lexer_tokenize (lexer_new src)
