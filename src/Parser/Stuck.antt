-- ===== src/Parser/Stuck.antt =====
-- The loop over the parameter types of `fn(...)`, `parse_fn_param_types` of src/parser.c, at a token
-- that begins no type.
use lu_language.Prelude.{
  ℕ, zero, suc, Bytes, Bool, true, false, Option, none, some, ◌≡◌, refl, ◌∙◌, ap, codes, streq,
  if◌then◌else◌,
}
use lu_language.Lexer.Token.{Token, tok_lparen, tok_rparen, tok_comma}
use lu_language.Parser.Cursor.{Parser, cur_kind, cur_text, check, match_tok, ◌>>=◌}
use lu_language.Parser.Types.{
  type_form, no_type, list_end, consume_type, parse_fn_param_types, strcat,
}
use lu_language.Parser.Phrase.{push, of_kind, of_word}

-- What is done behind a parameter's type.
abbrev onward : ℕ → Bool → Bytes → Bytes × Parser → Option (Bytes × Parser)
onward fuel first buf (t, q) =
    parse_fn_param_types fuel false
      (strcat 256 (if first then buf else strcat 256 buf (codes ",")) t) (match_tok tok_comma q)

params_step :
    (fuel : ℕ) (first : Bool) (buf : Bytes) (p : Parser)
    → list_end tok_rparen p ≡ false
    → parse_fn_param_types (suc fuel) first buf p
      ≡ (consume_type fuel p >>= λ r. onward fuel first buf r)
unfolding parse_fn_param_types
params_step fuel first buf p e = rw (e, parse_fn_param_types)

no_type_step :
    (fuel : ℕ) (p : Parser)
    → type_form (cur_kind p) (cur_text p) ≡ no_type
    → consume_type (suc fuel) p ≡ some (codes "auto", p)
unfolding consume_type
no_type_step fuel p h = rw (h, consume_type)

comma_step : (p : Parser) → check tok_comma p ≡ false → match_tok tok_comma p ≡ p
unfolding match_tok
comma_step p c = rw c

params_stuck :
    (fuel : ℕ) (first : Bool) (buf : Bytes) (p : Parser)
    → type_form (cur_kind p) (cur_text p) ≡ no_type
    → list_end tok_rparen p ≡ false
    → check tok_comma p ≡ false
    → parse_fn_param_types fuel first buf p ≡ none
params_stuck zero first buf p h e c = unfold parse_fn_param_types in refl
params_stuck (suc zero) first buf p h e c =
    params_step zero first buf p e ∙ (unfold consume_type in refl)
params_stuck (suc (suc fuel)) first buf p h e c =
    params_step (suc fuel) first buf p e
    ∙ (ap (λ x. x >>= λ r. onward (suc fuel) first buf r) (no_type_step fuel p h)
        ∙ rw (comma_step p c) (params_stuck (suc fuel) false _ p h e c))

-- At a token in the parentheses of fn(...) that begins no type, is no comma, and does not end the
-- list, consume_type has no result with any fuel: the loop over the parameters passes no token.
pub consume_type-stuck :
    (fuel : ℕ) (f a : Token) (p : Parser)
    → type_form (cur_kind p) (cur_text p) ≡ no_type
    → list_end tok_rparen p ≡ false
    → check tok_comma p ≡ false
    → consume_type fuel (push (of_word (codes "fn") f) (push (of_kind tok_lparen a) p)) ≡ none
unfolding consume_type type_form streq
consume_type-stuck zero f a p h e c = refl
consume_type-stuck (suc zero) f a p h e c = refl
consume_type-stuck (suc (suc fuel)) f a p h e c = rw (params_stuck fuel true (codes "fn:(") p h e c)
