-- ===== src/Lexer/Token.antt =====
-- Tokens of the Classic front end: `TokenType` and `Token` of src/lu.h.
use lu_language.Prelude.{ℕ, Bytes}

pub data TokenType : Type 0 where
  tok_lang_decl tok_import tok_mode tok_def_const tok_def_config tok_lang_bind : TokenType
  tok_define tok_include tok_pragma tok_ifdef tok_endif tok_block_id tok_block_end : TokenType
  tok_if tok_elif tok_else tok_pr tok_to tok_linref tok_func tok_call tok_return : TokenType
  tok_loop tok_set tok_opt tok_annot tok_user tok_snd_mes tok_rec tok_fwd tok_del : TokenType
  tok_server tok_cor tok_inq tok_send tok_route tok_bcast tok_ptr tok_ref tok_deref : TokenType
  tok_alloc tok_free tok_memset tok_memcpy tok_try tok_catch tok_finally tok_throw : TokenType
  tok_await tok_spawn tok_chan tok_chan_send tok_chan_recv tok_select tok_case : TokenType
  tok_default tok_event tok_on tok_emit tok_off tok_log tok_assert tok_trace : TokenType
  tok_break_bp tok_watch tok_enum tok_struct tok_union tok_tuple tok_module tok_ns : TokenType
  tok_use_ns tok_type_int tok_type_int64 tok_type_float tok_type_str tok_type_bool : TokenType
  tok_type_byte tok_type_ip tok_type_id tok_type_cor tok_type_msg tok_type_lib : TokenType
  tok_type_void tok_cr tok_dam tok_onl tok_vl tok_obj tok_func_call tok_exp tok_cl : TokenType
  tok_dist tok_int_lit tok_float_lit tok_str_lit tok_bool_lit tok_ip_lit tok_ident : TokenType
  tok_plus tok_minus tok_star tok_slash tok_percent tok_dstar tok_inc tok_dec tok_amp : TokenType
  tok_pipe tok_caret tok_tilde tok_lshift tok_rshift tok_urshift tok_and tok_or : TokenType
  tok_bang tok_eq tok_neq tok_lt tok_gt tok_le tok_ge tok_question tok_colon tok_arrow : TokenType
  tok_larrow tok_assign tok_plus_eq tok_minus_eq tok_star_eq tok_slash_eq : TokenType
  tok_percent_eq tok_amp_eq tok_pipe_eq tok_caret_eq tok_lshift_eq tok_rshift_eq : TokenType
  tok_dot tok_ptr_access tok_comma tok_semicolon tok_lparen tok_rparen tok_lbrace : TokenType
  tok_rbrace tok_lbracket tok_rbracket tok_newline tok_eof tok_unknown : TokenType

-- `value` is the heap copy that `make_tok` takes.
pub record Token : Type 0 where
  pub type : TokenType
  pub value : Bytes
  pub line : ℕ
  pub col : ℕ
