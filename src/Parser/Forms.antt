-- ===== src/Parser/Forms.antt =====
-- The choice that `parse_primary` of src/parser.c makes by the current token and the two behind it.
use lu_language.Prelude.{zero, suc, Bytes, Bool, ◌&&◌, ◌||◌, if◌then◌else◌, streq, codes}
use lu_language.Lexer.Token.{
  TokenType, tok_int_lit, tok_float_lit, tok_str_lit, tok_bool_lit, tok_ident, tok_lparen,
  tok_rparen, tok_lbracket, tok_bang, tok_minus, tok_tilde, tok_inc, tok_dec, tok_star, tok_amp,
  tok_deref, tok_ref, tok_chan_recv, tok_alloc, tok_call, tok_type_int, tok_type_float,
  tok_type_str, tok_type_bool, tok_type_byte, tok_type_ip, tok_type_id, tok_type_msg, tok_type_cor,
  tok_type_int64, tok_type_lib, tok_type_void, tok_cor, tok_block_id,
}
use lu_language.Parser.Cursor.{Parser, cur_text, peek_tok, same_kind}
use lu_language.Parser.Types.{is_type_tok}

-- The branches of `parse_primary`, in its order.
pub data Form : Type 0 where
  int_form float_form str_form bool_form py_bool_form none_form null_form cast_form : Form
  group_form list_form unary_form deref_form ref_form recv_form sizeof_form alloc_form : Form
  call_form new_form lambda_form name_form cor_form block_form other_form : Form

-- `call` says that a parenthesis follows.
unfoldable pub word_form : Bytes → Bool → Form
word_form v call =
    if streq v (codes "True") || streq v (codes "False")
    then py_bool_form
    else if streq v (codes "None")
    then none_form
    else if streq v (codes "null")
    then null_form
    else if streq v (codes "sizeof") && call
    then sizeof_form
    else if streq v (codes "new")
    then new_form
    else if streq v (codes "fn") && call
    then lambda_form
    else name_form

unfoldable pub form_of : TokenType → Parser → Form
unfolding word_form peek_tok
form_of tok_int_lit p = int_form
form_of tok_float_lit p = float_form
form_of tok_str_lit p = str_form
form_of tok_bool_lit p = bool_form
form_of tok_ident p = word_form (cur_text p) (same_kind (peek_tok zero p).type tok_lparen)
form_of tok_lparen p =
    if is_type_tok (peek_tok zero p).type && same_kind (peek_tok (suc zero) p).type tok_rparen
    then cast_form
    else group_form
form_of tok_lbracket p = list_form
form_of tok_bang p = unary_form
form_of tok_minus p = unary_form
form_of tok_tilde p = unary_form
form_of tok_inc p = unary_form
form_of tok_dec p = unary_form
form_of tok_star p = deref_form
form_of tok_amp p = ref_form
form_of tok_deref p = deref_form
form_of tok_ref p = ref_form
form_of tok_chan_recv p = recv_form
form_of tok_alloc p = alloc_form
form_of tok_call p = call_form
form_of tok_type_int p = name_form
form_of tok_type_float p = name_form
form_of tok_type_str p = name_form
form_of tok_type_bool p = name_form
form_of tok_type_byte p = name_form
form_of tok_type_ip p = name_form
form_of tok_type_id p = name_form
form_of tok_type_msg p = name_form
form_of tok_type_cor p = name_form
form_of tok_type_int64 p = name_form
form_of tok_type_lib p = name_form
form_of tok_type_void p = name_form
form_of tok_cor p = cor_form
form_of tok_block_id p = block_form
form_of _ p = other_form
