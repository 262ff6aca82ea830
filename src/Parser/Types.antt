-- ===== src/Parser/Types.antt =====
-- `consume_type` and its helpers, src/parser.c. The number is fuel: every call and every round of
-- a loop takes one.
use lu_language.Prelude.{
  ℕ, zero, suc, ◌+◌, ◌-◌, Bytes, Bool, true, false, ◌||◌, none, some, ◌++◌, length, take,
  if◌then◌else◌, streq, snprintf, codes,
}
use lu_language.Lexer.Token.{
  TokenType, tok_ptr, tok_question, tok_bang, tok_ident, tok_lparen, tok_rparen, tok_eof,
  tok_newline, tok_ptr_access, tok_colon, tok_lt, tok_gt, tok_star, tok_comma, tok_type_int,
  tok_type_int64, tok_type_float, tok_type_str, tok_type_bool, tok_type_byte, tok_type_ip,
  tok_type_id, tok_type_cor, tok_type_msg, tok_type_lib, tok_type_void,
}
use lu_language.Parser.Cursor.{Parser, Parse, ◌>>=◌, cur_kind, cur_text, check, consume, match_tok}

abbrev pub is_type_tok : TokenType → Bool
is_type_tok tok_type_int = true
is_type_tok tok_type_int64 = true
is_type_tok tok_type_float = true
is_type_tok tok_type_str = true
is_type_tok tok_type_bool = true
is_type_tok tok_type_byte = true
is_type_tok tok_type_ip = true
is_type_tok tok_type_id = true
is_type_tok tok_type_cor = true
is_type_tok tok_type_msg = true
is_type_tok tok_type_lib = true
is_type_tok tok_type_void = true
is_type_tok tok_ident = true
is_type_tok _ = false

-- `strncat(buf, text, cap - strlen(buf) - 1)`
unfoldable pub strcat : ℕ → Bytes → Bytes → Bytes
strcat cap buf text = buf ++ take (cap - (length buf + 1)) text

-- The test of the loops over a bracketed list: the closing token, the end of the file or of the
-- line.
abbrev pub list_end : TokenType → Parser → Bool
list_end closing p = check closing p || check tok_eof p || check tok_newline p

-- The branches of `consume_type`, in its order.
pub data TypeForm : Type 0 where
  pointer_type optional_type error_type function_type no_type named_type : TypeForm

unfoldable pub type_form : TokenType → Bytes → TypeForm
type_form tok_ptr v = pointer_type
type_form tok_question v = optional_type
type_form tok_bang v = error_type
type_form tok_ident v = if streq v (codes "fn") then function_type else named_type
type_form k v = if is_type_tok k then named_type else no_type

-- `T*`, and `Vector<T>` up to the bracket.
unfoldable pub star_suffix : ℕ → Bytes → Parse Bytes
star_suffix zero s p = none
star_suffix (suc f) s p = elim (check tok_star p) [
  | true ↦ star_suffix f (snprintf 256 (s ++ codes "*")) (consume p)
  | false ↦ some (s, p)
]

unfoldable pub template_args : ℕ → Bytes → Parse Bytes
template_args zero buf p = none
template_args (suc f) buf p = elim (list_end tok_gt p) [
  | true ↦ some (buf, p)
  | false ↦ template_args f (strcat 256 buf (cur_text p)) (consume p)
]

abbrev pub close_template : Bytes → Parser → Bytes × Parser
close_template buf p = if check tok_gt p then (strcat 256 buf (codes ">"), consume p) else (buf, p)

unfoldable pub read_named : ℕ → Parse Bytes
unfolding template_args star_suffix
read_named f p =
    let s = cur_text p in
    let q = consume p in
    elim (check tok_lt q) [
      | true ↦ template_args f (snprintf 256 (s ++ codes "<")) (consume q) >>= λ (buf, u).
          let closed = close_template buf u in star_suffix f closed.0 closed.1
      | false ↦ star_suffix f s q
    ]

unfoldable mutual
  pub consume_type : ℕ → Parse Bytes
  consume_type zero p = none
  consume_type (suc f) p = elim (type_form (cur_kind p) (cur_text p)) [
    | pointer_type ↦ prefixed f 192 (codes "ptr/") (consume p)
    | optional_type ↦ prefixed f 128 (codes "?") (consume p)
    | error_type ↦ prefixed f 128 (codes "!") (consume p)
    | function_type ↦ function_sig f (consume p)
    | no_type ↦ some (codes "auto", p)
    | named_type ↦ read_named f p
  ]

  pub prefixed : ℕ → ℕ → Bytes → Parse Bytes
  prefixed zero size mark p = none
  prefixed (suc f) size mark p =
      consume_type f p >>= λ (inner, q). some (snprintf size (mark ++ inner), q)

  pub function_sig : ℕ → Parse Bytes
  function_sig zero p = none
  function_sig (suc f) p = elim (check tok_lparen p) [
    | true ↦ parse_fn_param_types f true (codes "fn:(") (consume p) >>= λ (buf, q).
        return_type f buf (match_tok tok_rparen q)
    | false ↦ return_type f (codes "fn:()") p
  ]

  -- `first` says that no parameter was read yet.
  pub parse_fn_param_types : ℕ → Bool → Bytes → Parse Bytes
  parse_fn_param_types zero first buf p = none
  parse_fn_param_types (suc f) first buf p = elim (list_end tok_rparen p) [
    | true ↦ some (strcat 256 buf (codes ")"), p)
    | false ↦ consume_type f p >>= λ (t, q).
        parse_fn_param_types f false
          (strcat 256 (if first then buf else strcat 256 buf (codes ",")) t) (match_tok tok_comma q)
  ]

  pub return_type : ℕ → Bytes → Parse Bytes
  return_type zero buf p = none
  return_type (suc f) buf p = elim (check tok_ptr_access p || check tok_colon p) [
    | true ↦ consume_type f (consume p) >>= λ (ret, q).
        some (strcat 256 (strcat 256 buf (codes "->")) ret, q)
    | false ↦ some (strcat 256 buf (codes "->void"), p)
  ]
