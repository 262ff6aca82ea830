-- ===== src/Parser/Lambda.antt =====
-- The branch of `parse_primary`, src/parser.c, for a lambda: its parameters, its signature and its
-- body.
use lu_language.Prelude.{
  ℕ, Bytes, Bool, true, false, ◌||◌, Option, none, some, ◌==◌, codes, length, if◌then◌else◌,
}
use lu_language.Lexer.Token.{
  tok_ident, tok_lparen, tok_rparen, tok_lbrace, tok_rbrace, tok_comma, tok_eof, tok_newline,
}
use lu_language.Ast.{
  Node, node, Nodes, nil, cons, no_lhs, node_func_decl, node_var_decl, node_program,
}
use lu_language.Parser.Cursor.{
  Parser, Parse, ◌>>=◌, cur_text, check, consume, match_tok, skip_newlines,
}
use lu_language.Parser.Nodes.{node_fields, node_new}
use lu_language.Parser.Types.{strcat, list_end}
use lu_language.Parser.Calls.{Outer, Calls}
use lu_language.Parser.Literals.{line_at}

unfoldable pub node_list_add : Nodes → Node → Nodes
node_list_add nil n = cons n nil
node_list_add (cons m ns) n = cons m (node_list_add ns n)

abbrev pub cons_some : Option Node → Nodes → Nodes
cons_some none ns = ns
cons_some (some n) ns = cons n ns

abbrev pub param_node : ℕ → Bytes → Bytes → Node
param_node line ptype name =
    node (node_fields node_var_decl line (some name) none (some ptype) none) nil no_lhs

-- A token is passed when a statement passed none.
abbrev pub force_progress : Parser → Parser → Parser
force_progress before p = if length before.later == length p.later then consume p else p

abbrev pub opt_newline : Parser → Parser
opt_newline p = match_tok tok_newline p

module _ (r : Calls) where
  unfoldable pub read_param : ℕ → Bytes → Bytes → Parse (Bytes × Nodes)
  read_param line ptype sig p = elim (check tok_ident p) [
    | true ↦ r.params line false sig (match_tok tok_comma (consume p)) >>= λ (all, q).
        some ((all.0, cons (param_node line ptype (cur_text p)) all.1), q)
    | false ↦ r.params line false sig (match_tok tok_comma p)
  ]

  -- A round of the loop over the parameters; `first` says that none was read yet.
  unfoldable pub read_params : ℕ → Bool → Bytes → Parse (Bytes × Nodes)
  read_params line first sig p = elim (list_end tok_rparen p) [
    | true ↦ some ((sig, nil), p)
    | false ↦ r.type_at p >>= λ (ptype, q).
        read_param line ptype (strcat 256 (if first then sig else strcat 256 sig (codes ",")) ptype)
          q
  ]

  -- A round of the loop over the statements of the body.
  unfoldable pub read_body : Outer → Parse Nodes
  read_body o p = elim (check tok_rbrace p || check tok_eof p) [
    | true ↦ some (nil, p)
    | false ↦
        let q = skip_newlines p in
        elim (check tok_rbrace q) [
          | true ↦ some (nil, q)
          | false ↦ o.parse_statement q >>= λ (s, u).
              r.statements (force_progress q (opt_newline u)) >>= λ (ss, w).
              some (cons_some s ss, w)
        ]
  ]

  unfoldable pub lambda_node : ℕ → Bytes → Nodes → Node
  lambda_node line sig children =
      node (node_fields node_func_decl line none (some sig) (some sig) (some (codes "lambda")))
        children no_lhs

  unfoldable pub read_lambda_body : ℕ → Bytes → Nodes → Parse Node
  read_lambda_body line sig ps p = elim (check tok_lbrace p) [
    | true ↦ r.statements (skip_newlines (consume p)) >>= λ (ss, q). some (
      lambda_node line sig (node_list_add ps (node_new node_program line ss)),
      match_tok tok_rbrace q,
    )
    | false ↦ some (lambda_node line sig ps, p)
  ]

  unfoldable pub read_lambda : Parse Node
  read_lambda p =
      let line = line_at p in
      r.params line true (codes "fn:(") (match_tok tok_lparen (consume p)) >>= λ (all, q).
      r.return_at (strcat 256 all.0 (codes ")")) (match_tok tok_rparen q) >>= λ (sig, u).
      read_lambda_body line sig all.1 (skip_newlines u)
