-- ===== src/Parser/Names.antt =====
-- The branch of `parse_primary`, src/parser.c, for a name with its call and its accesses.
use lu_language.Prelude.{ℕ, Bytes, true, false, ◌||◌, none, some, codes, if◌then◌else◌}
use lu_language.Lexer.Token.{
  tok_lparen, tok_rparen, tok_lbracket, tok_rbracket, tok_colon, tok_dot, tok_ptr_access,
}
use lu_language.Ast.{
  Node, node, nil, cons, no_lhs, node_func_call, node_ident, node_expr_field, node_expr_index,
}
use lu_language.Parser.Cursor.{Parse, ◌>>=◌, cur_text, check, consume, match_tok}
use lu_language.Parser.Nodes.{node_fields, node_new, node_text, node_op, one, two}
use lu_language.Parser.Calls.{Calls}
use lu_language.Parser.Literals.{line_at}

-- `n.name` and `n->name`
abbrev pub field_node : ℕ → Bytes → Bytes → Node → Node
field_node line op name n =
    node (node_fields node_expr_field line (some name) (some op) none none) (one n) no_lhs

abbrev pub index_node : ℕ → Node → Node → Node
index_node line n i = node_new node_expr_index line (two n i)

abbrev pub slice_node : ℕ → Node → Node → Node → Node
slice_node line n start stop =
    node_op node_expr_index line (codes "slice") (cons n (two start stop))

module _ (r : Calls) where
  -- Behind the first expression in the brackets.
  unfoldable pub read_behind : ℕ → Node → Node → Parse Node
  read_behind line n first q = elim (check tok_colon q) [
    | true ↦ r.expr (consume q) >>= λ (stop, u).
        r.chain line (slice_node line n first stop) (match_tok tok_rbracket u)
    | false ↦ r.chain line (index_node line n first) (match_tok tok_rbracket q)
  ]

  unfoldable pub read_index : ℕ → Node → Parse Node
  unfolding read_behind
  read_index line n p = r.expr (consume p) >>= λ (first, q). read_behind line n first q

  unfoldable pub read_field : Bytes → ℕ → Node → Parse Node
  read_field op line n p =
      let q = consume p in r.chain line (field_node line op (cur_text q) n) (consume q)

  -- A round of the loop over the accesses behind a name.
  unfoldable pub read_chain : ℕ → Node → Parse Node
  unfolding read_index read_field
  read_chain line n p = elim (check tok_dot p || check tok_ptr_access p) [
    | true ↦ read_field (if check tok_ptr_access p then codes "->" else codes ".") line n p
    | false ↦ elim (check tok_lbracket p) [ true ↦ read_index line n p | false ↦ some (n, p) ]
  ]

  unfoldable pub read_name : Parse Node
  read_name p =
      let line = line_at p in
      let q = consume p in
      elim (check tok_lparen q) [
        | true ↦ r.args tok_rparen (consume q) >>= λ (es, u).
            r.chain line (node_text node_func_call line (cur_text p) es) (match_tok tok_rparen u)
        | false ↦ r.chain line (node_text node_ident line (cur_text p) nil) q
      ]
