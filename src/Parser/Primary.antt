-- ===== src/Parser/Primary.antt =====
-- `parse_primary` of src/parser.c, one function for each branch that reads more than a token.
use lu_language.Prelude.{
  zero, Bytes, Bool, true, false, ◌&&◌, ◌||◌, none, some, ◌++◌, if◌then◌else◌, snprintf, codes,
  Option,
}
use lu_language.Lexer.Token.{
  TokenType, tok_lparen, tok_rparen, tok_rbracket, tok_star, tok_question, tok_colon, tok_comma,
  tok_lt, tok_gt, tok_eof,
}
use lu_language.Ast.{
  Node, node, Nodes, nil, cons, no_lhs, NodeKind, node_expr_unop, node_expr_index, node_expr_deref,
  node_expr_ref, node_chan_recv, node_alloc, node_func_call, node_new_expr,
}
use lu_language.Parser.Cursor.{
  Parser, Parse, ◌>>=◌, cur_kind, cur_text, peek_tok, same_kind, check, consume, match_tok,
  skip_newlines,
}
use lu_language.Parser.Nodes.{node_fields, node_new, node_text, node_op, one}
use lu_language.Parser.Types.{is_type_tok, list_end}
use lu_language.Parser.Calls.{Outer, Calls}
use lu_language.Parser.Literals.{
  line_at, read_int, read_float, read_str, read_bool, read_null, read_cor_key, read_block_ref,
  read_other,
}
use lu_language.Parser.Names.{read_name}
use lu_language.Parser.Lambda.{read_lambda}
use lu_language.Parser.Forms.{
  Form, form_of, int_form, float_form, str_form, bool_form, py_bool_form, none_form, null_form,
  cast_form, group_form, list_form, unary_form, deref_form, ref_form, recv_form, sizeof_form,
  alloc_form, call_form, new_form, lambda_form, name_form, cor_form, block_form, other_form,
}

abbrev pub sizeof_type : Parser → Bool
sizeof_type q =
    let next = (peek_tok zero q).type in
    (is_type_tok (cur_kind q) || check tok_question q)
    && (same_kind next tok_rparen || same_kind next tok_star)

abbrev pub new_name : Parser → Option Bytes × Parser
new_name q = if check tok_eof q then (none, q) else (some (cur_text q), consume q)

abbrev pub new_template : Parser → Option Bytes × Parser
new_template q =
    if check tok_lt q
    then (some (cur_text (consume q)), match_tok tok_gt (consume (consume q)))
    else (none, q)

module _ (r : Calls) where
  unfoldable pub read_cast : Parse Node
  read_cast p = r.type_at (consume p) >>= λ (tname, q).
      r.postfix (match_tok tok_rparen q) >>= λ (operand, u).
      let op = snprintf 128 (codes "(cast:" ++ (tname ++ codes ")")) in
      some (
        node (node_fields node_expr_unop (line_at p) none (some op) (some tname) none) (one operand)
            no_lhs,
        u,
      )

  unfoldable pub read_group : Parse Node
  read_group p = r.expr (consume p) >>= λ (e, q). some (e, match_tok tok_rparen q)

  -- A round of the loop over a list of expressions.
  unfoldable pub read_args : TokenType → Parse Nodes
  read_args closing p = elim (list_end closing p) [
    | true ↦ some (nil, p)
    | false ↦ r.expr p >>= λ (e, q).
        r.args closing (match_tok tok_comma q) >>= λ (es, u). some (cons e es, u)
  ]

  unfoldable pub read_list : Parse Node
  read_list p = r.args tok_rbracket (consume p) >>= λ (items, q).
      some (node_op node_expr_index (line_at p) (codes "list") items, match_tok tok_rbracket q)

  unfoldable pub read_prefix : Parse Node
  read_prefix p = r.primary (consume p) >>= λ (e, q).
      some (node_op node_expr_unop (line_at p) (cur_text p) (one e), q)

  -- `*`, `&`, `Deref/` and `Ref/`
  unfoldable pub read_address : NodeKind → Parse Node
  read_address kind p =
      r.primary (consume p) >>= λ (e, q). some (node_new kind (line_at p) (one e), q)

  unfoldable pub read_recv : Parse Node
  read_recv p =
      let q = consume p in some (node_text node_chan_recv (line_at p) (cur_text q) nil, consume q)

  unfoldable pub read_sizeof : Parse Node
  read_sizeof p =
      let q = consume (consume p) in
      let op = some (codes "sizeof") in
      elim (sizeof_type q) [
        | true ↦ r.type_at q >>= λ (t, u). some (
          node (node_fields node_expr_unop (line_at p) none op (some t) none) nil no_lhs,
          match_tok tok_rparen u,
        )
        | false ↦ r.expr q >>= λ (e, u). some (
          node (node_fields node_expr_unop (line_at p) none op none none) (one e) no_lhs,
          match_tok tok_rparen u,
        )
      ]

  unfoldable pub read_alloc : Parse Node
  read_alloc p = r.type_at (consume p) >>= λ (t, q). r.expr (match_tok tok_colon q) >>= λ (e, u).
      some (node (node_fields node_alloc (line_at p) none none (some t) none) (one e) no_lhs, u)

  -- `Call/name(args)`
  unfoldable pub read_call : Parse Node
  read_call p =
      let q = consume p in
      r.args tok_rparen (match_tok tok_lparen (consume q)) >>= λ (es, u).
      some (node_text node_func_call (line_at p) (cur_text q) es, match_tok tok_rparen u)

  unfoldable pub read_new : Parse Node
  read_new p =
      let name = new_name (consume p) in
      let annot = new_template name.1 in
      r.args tok_rparen (match_tok tok_lparen annot.1) >>= λ (es, u). some (
        node (node_fields node_new_expr (line_at p) name.0 none none annot.0) es no_lhs,
        match_tok tok_rparen u,
      )

  -- The branches that read one token are done with it.
  unfoldable pub read_form : Outer → Form → Parse Node
  unfolding read_cast read_group read_list read_prefix read_address read_recv read_sizeof read_alloc
      read_call read_new
  read_form o int_form p = some (read_int o p)
  read_form o float_form p = some (read_float o p)
  read_form o str_form p = some (read_str o p)
  read_form o bool_form p = some (read_bool (codes "true") p)
  read_form o py_bool_form p = some (read_bool (codes "True") p)
  read_form o none_form p = some (read_null p)
  read_form o null_form p = some (read_null p)
  read_form o cast_form p = read_cast p
  read_form o group_form p = read_group p
  read_form o list_form p = read_list p
  read_form o unary_form p = read_prefix p
  read_form o deref_form p = read_address node_expr_deref p
  read_form o ref_form p = read_address node_expr_ref p
  read_form o recv_form p = read_recv p
  read_form o sizeof_form p = read_sizeof p
  read_form o alloc_form p = read_alloc p
  read_form o call_form p = read_call p
  read_form o new_form p = read_new p
  read_form o lambda_form p = read_lambda r p
  read_form o name_form p = read_name r p
  read_form o cor_form p = some (read_cor_key p)
  read_form o block_form p = some (read_block_ref p)
  read_form o other_form p = some (read_other p)

  unfoldable pub read_primary : Outer → Parse Node
  unfolding read_form
  read_primary o p = let q = skip_newlines p in read_form o (form_of (cur_kind q) q) q
