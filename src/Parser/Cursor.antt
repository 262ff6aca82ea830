-- ===== src/Parser/Cursor.antt =====
-- The state `Parser` of src/lu.h and the helpers on it at the head of src/parser.c. The tokens from
-- `pos` on are kept, the current one apart, since there is always one: `pos` never passes the last.
use lu_language.Prelude.{
  ℕ, zero, suc, Bytes, Bool, List, [], ◌∷◌, Option, none, some, ◌==◌, if◌then◌else◌,
}
use lu_language.Lexer.Token.{Token, TokenType, tok_newline}
use lu_language.Parser.Kinds.{tag}

-- `errors` is the global `g_parse_error_count`.
pub record Parser : Type 0 where
  pub token : Token
  pub later : List Token
  pub errors : ℕ

-- What a parsing function returns, with the state that it leaves; `none` is for fuel that ran out.
abbrev pub Parse {ℓ} : Type ℓ → Type ℓ
Parse A = Parser → Option (A × Parser)

infixl 5 ◌>>=◌
abbrev pub ◌>>=◌ {ℓ κ} : {A : Type ℓ} {B : Type κ} → Option A → (A → Option B) → Option B
none >>= f = none
some a >>= f = f a

abbrev pub cur_kind : Parser → TokenType
cur_kind p = p.token.type

abbrev pub cur_text : Parser → Bytes
cur_text p = p.token.value

-- `peek_tok(p, off)` for an `off` above 0: `peek_tok 0 p` is for the offset 1.
unfoldable pub peek_tok : ℕ → Parser → Token
peek_tok i p = peek_from i p.token p.later
  where
    peek_from : ℕ → Token → List Token → Token
    peek_from i t [] = t
    peek_from zero t (u ∷ us) = u
    peek_from (suc i) t (u ∷ us) = peek_from i u us

abbrev pub step_to : Token → List Token → ℕ → Parser
step_to t [] errors = record { token = t; later = []; errors = errors }
step_to t (u ∷ us) errors = record { token = u; later = us; errors = errors }

abbrev pub consume : Parser → Parser
consume p = step_to p.token p.later p.errors

abbrev pub same_kind : TokenType → TokenType → Bool
same_kind a b = tag a == tag b

abbrev pub check : TokenType → Parser → Bool
check t p = same_kind (cur_kind p) t

-- The state after `match(p, t)`, which answers `check(p, t)`.
unfoldable pub match_tok : TokenType → Parser → Parser
match_tok t p = if check t p then consume p else p

unfoldable pub skip_from : Token → List Token → ℕ → Parser
skip_from t [] errors = record { token = t; later = []; errors = errors }
skip_from t (u ∷ us) errors =
    if same_kind t.type tok_newline
    then skip_from u us errors
    else record { token = t; later = u ∷ us; errors = errors }

-- At a newline that is the last token the loop of the source would not end; the last token of the
-- tokenizer is the end of the file.
unfoldable pub skip_newlines : Parser → Parser
unfolding skip_from
skip_newlines p = skip_from p.token p.later p.errors

-- The warning that `expect` prints is left out.
unfoldable pub expect : TokenType → Parser → Parser
expect t p =
    if check t p
    then consume p
    else record { token = p.token; later = p.later; errors = suc p.errors }
