-- ===== src/Parser/Reads/Tokens.antt =====
-- What the expression parser of src/parser.c makes of one token: tests on the token behind a phrase,
-- and the branch taken at the first token of one.
use lu_language.Prelude.{
  ℕ, ◌≤◌, Bytes, Bool, true, false, ◌||◌, Option, none, some, ◌≡◌, refl, arith,
}
use lu_language.Lexer.Token.{
  Token, TokenType, tok_ident, tok_dot, tok_ptr_access, tok_lbracket, tok_lparen, tok_rparen,
  tok_inc, tok_dec, tok_newline, tok_type_int, tok_type_int64, tok_type_float, tok_type_str,
  tok_type_bool, tok_type_byte, tok_type_ip, tok_type_id, tok_type_cor, tok_type_msg, tok_type_lib,
  tok_type_void, tok_dstar, tok_star, tok_slash, tok_percent, tok_plus, tok_minus, tok_lshift,
  tok_rshift, tok_urshift, tok_lt, tok_le, tok_gt, tok_ge, tok_eq, tok_neq, tok_amp, tok_caret,
  tok_pipe, tok_and, tok_or,
}
use lu_language.Parser.Cursor.{Parser, cur_text, same_kind, skip_newlines, skip_from}
use lu_language.Parser.Forms.{form_of, word_form, name_form}
use lu_language.Parser.Expr.{operator_at, word_prec, symbol_prec, binop_prec}
use lu_language.Parser.Phrase.{push, is_name}

-- A token that goes on with a name.
abbrev pub is_access : TokenType → Bool
is_access k =
    same_kind k tok_dot
    || same_kind k tok_ptr_access
    || same_kind k tok_lbracket
    || same_kind k tok_lparen

abbrev pub is_step : TokenType → Bool
is_step k = same_kind k tok_inc || same_kind k tok_dec

pub operator-is_access :
    (k : TokenType) (v : Bytes) (op : ℕ × Bytes) → operator_at k v ≡ some op → is_access k ≡ false
unfolding operator_at
operator-is_access tok_dot v op h = cc
operator-is_access tok_ptr_access v op h = cc
operator-is_access tok_lbracket v op h = cc
operator-is_access tok_lparen v op h = cc
operator-is_access _ v op h = refl

pub operator-is_step :
    (k : TokenType) (v : Bytes) (op : ℕ × Bytes) → operator_at k v ≡ some op → is_step k ≡ false
unfolding operator_at
operator-is_step tok_inc v op h = cc
operator-is_step tok_dec v op h = cc
operator-is_step _ v op h = refl

pub operator-rparen :
    (k : TokenType) (v : Bytes) (op : ℕ × Bytes)
    → operator_at k v ≡ some op
    → same_kind k tok_rparen ≡ false
unfolding operator_at
operator-rparen tok_rparen v op h = cc
operator-rparen _ v op h = refl

word_prec_bounds : (v : Bytes) (op : ℕ × Bytes) → word_prec v ≡ some op → (2 ≤ op.0) × (op.0 ≤ 12)
unfolding word_prec
word_prec_bounds v op h = ground arith

binop_prec_bounds : (k : TokenType) (n : ℕ) → binop_prec k ≡ some n → (2 ≤ n) × (n ≤ 12)
binop_prec_bounds tok_dstar n h = ground arith
binop_prec_bounds tok_star n h = ground arith
binop_prec_bounds tok_slash n h = ground arith
binop_prec_bounds tok_percent n h = ground arith
binop_prec_bounds tok_plus n h = ground arith
binop_prec_bounds tok_minus n h = ground arith
binop_prec_bounds tok_lshift n h = ground arith
binop_prec_bounds tok_rshift n h = ground arith
binop_prec_bounds tok_urshift n h = ground arith
binop_prec_bounds tok_lt n h = ground arith
binop_prec_bounds tok_le n h = ground arith
binop_prec_bounds tok_gt n h = ground arith
binop_prec_bounds tok_ge n h = ground arith
binop_prec_bounds tok_eq n h = ground arith
binop_prec_bounds tok_neq n h = ground arith
binop_prec_bounds tok_amp n h = ground arith
binop_prec_bounds tok_caret n h = ground arith
binop_prec_bounds tok_pipe n h = ground arith
binop_prec_bounds tok_and n h = ground arith
binop_prec_bounds tok_or n h = ground arith
binop_prec_bounds _ n h = cc

pub symbol_bounds :
    (v : Bytes) (o : Option ℕ) (op : ℕ × Bytes)
    → ((n : ℕ) → o ≡ some n → (2 ≤ n) × (n ≤ 12))
    → symbol_prec v o ≡ some op
    → (2 ≤ op.0) × (op.0 ≤ 12)
symbol_bounds v none op all h = cc
symbol_bounds v (some n) op all h = ground (arith, all n refl)

-- Precedences are between 2 and 12.
pub operator_bounds :
    (k : TokenType) (v : Bytes) (op : ℕ × Bytes)
    → operator_at k v ≡ some op
    → (2 ≤ op.0) × (op.0 ≤ 12)
unfolding operator_at
operator_bounds tok_ident v op h = word_prec_bounds v op h
operator_bounds k v op h = symbol_bounds v (binop_prec k) op (binop_prec_bounds k) h

-- A name takes the branch of names.
pub name-newline :
    (k : TokenType) (v : Bytes) → is_name k v ≡ true → same_kind k tok_newline ≡ false
name-newline tok_newline v h = cc
name-newline _ v h = refl

pub word_form-name :
    (v : Bytes) (call : Bool) → is_name tok_ident v ≡ true → word_form v call ≡ name_form
unfolding word_form
word_form-name v call h = ground arith

pub form_of-name :
    (k : TokenType) (p : Parser) → is_name k (cur_text p) ≡ true → form_of k p ≡ name_form
unfolding form_of
form_of-name tok_ident p h = word_form-name (cur_text p) _ h
form_of-name tok_type_int p h = refl
form_of-name tok_type_int64 p h = refl
form_of-name tok_type_float p h = refl
form_of-name tok_type_str p h = refl
form_of-name tok_type_bool p h = refl
form_of-name tok_type_byte p h = refl
form_of-name tok_type_ip p h = refl
form_of-name tok_type_id p h = refl
form_of-name tok_type_cor p h = refl
form_of-name tok_type_msg p h = refl
form_of-name tok_type_lib p h = refl
form_of-name tok_type_void p h = refl
form_of-name _ p h = cc

pub skip_newlines-push :
    (t : Token) (p : Parser)
    → same_kind t.type tok_newline ≡ false
    → skip_newlines (push t p) ≡ push t p
unfolding skip_newlines skip_from
skip_newlines-push t p h = rw h
