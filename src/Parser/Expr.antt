-- ===== src/Parser/Expr.antt =====
-- The operators of the expression parser, src/parser.c, and the functions tied together: a number
-- is fuel, and every call and every round of a loop takes one.
use lu_language.Prelude.{
  ℕ, zero, suc, Bytes, Bool, true, false, ◌&&◌, ◌||◌, Option, none, some, ◌++◌, if◌then◌else◌, ltb,
  streq, snprintf, codes,
}
use lu_language.Lexer.Token.{
  TokenType, tok_ident, tok_question, tok_colon, tok_inc, tok_dec, tok_dstar, tok_star, tok_slash,
  tok_percent, tok_plus, tok_minus, tok_lshift, tok_rshift, tok_urshift, tok_lt, tok_le, tok_gt,
  tok_ge, tok_eq, tok_neq, tok_amp, tok_caret, tok_pipe, tok_and, tok_or,
}
use lu_language.Ast.{Node, cons, node_expr_unop, node_expr_binop, node_expr_ternary}
use lu_language.Parser.Cursor.{Parser, Parse, ◌>>=◌, cur_text, check, consume, expect}
use lu_language.Parser.Nodes.{node_new, node_op, one, two, line_of}
use lu_language.Parser.Types.{consume_type, return_type}
use lu_language.Parser.Calls.{Outer, Calls}
use lu_language.Parser.Literals.{line_at}
use lu_language.Parser.Primary.{read_args, read_primary}
use lu_language.Parser.Names.{read_chain}
use lu_language.Parser.Lambda.{read_params, read_body}

-- `none` is the -1 of the source.
abbrev pub binop_prec : TokenType → Option ℕ
binop_prec tok_dstar = some 12
binop_prec tok_star = some 11
binop_prec tok_slash = some 11
binop_prec tok_percent = some 11
binop_prec tok_plus = some 10
binop_prec tok_minus = some 10
binop_prec tok_lshift = some 9
binop_prec tok_rshift = some 9
binop_prec tok_urshift = some 9
binop_prec tok_lt = some 8
binop_prec tok_le = some 8
binop_prec tok_gt = some 8
binop_prec tok_ge = some 8
binop_prec tok_eq = some 7
binop_prec tok_neq = some 7
binop_prec tok_amp = some 6
binop_prec tok_caret = some 5
binop_prec tok_pipe = some 4
binop_prec tok_and = some 3
binop_prec tok_or = some 2
binop_prec _ = none

-- The words `and`, `or` and `in`, with the operator that each is read as.
unfoldable pub word_prec : Bytes → Option (ℕ × Bytes)
word_prec v =
    if streq v (codes "and")
    then some (3, codes "&&")
    else if streq v (codes "or")
    then some (2, codes "||")
    else if streq v (codes "in")
    then some (8, codes "in")
    else none

abbrev pub symbol_prec : Bytes → Option ℕ → Option (ℕ × Bytes)
symbol_prec v none = none
symbol_prec v (some prec) = some (prec, v)

-- The precedence and the name of the operator that a token is.
unfoldable pub operator_at : TokenType → Bytes → Option (ℕ × Bytes)
unfolding word_prec
operator_at tok_ident v = word_prec v
operator_at k v = symbol_prec v (binop_prec k)

-- The operator that the loop goes on with, and none if it ends.
abbrev pub enough_prec : ℕ → Option (ℕ × Bytes) → Option (ℕ × Bytes)
enough_prec min_prec none = none
enough_prec min_prec (some op) = if ltb op.0 min_prec then none else some op

abbrev pub is_not : Parser → Bool
is_not p = check tok_ident p && streq (cur_text p) (codes "not")

module _ (r : Calls) where
  unfoldable pub read_postfix : Parse Node
  read_postfix p = r.primary p >>= λ (n, q). r.post n q

  -- A round of the loop over `++` and `--`.
  unfoldable pub read_post : Node → Parse Node
  read_post n p = elim (check tok_inc p || check tok_dec p) [
    | true ↦
        r.post
          (node_op node_expr_unop (line_at p) (snprintf 16 (cur_text p ++ codes "_post")) (one n))
          (consume p)
    | false ↦ some (n, p)
  ]

  unfoldable pub read_unary : Parse Node
  read_unary p = elim (is_not p) [
    | true ↦ r.unary (consume p) >>= λ (e, q).
        some (node_op node_expr_unop (line_at p) (codes "!") (one e), q)
    | false ↦ r.postfix p
  ]

  unfoldable pub read_binop : ℕ → Parse Node
  read_binop min_prec p = r.unary p >>= λ (left, q). r.climb min_prec left q

  -- A round of the loop over the operators.
  unfoldable pub read_climb : ℕ → Node → Parse Node
  read_climb min_prec left p = elim (enough_prec min_prec (operator_at p.token.type (cur_text p))) [
    | none ↦ some (left, p)
    | some op ↦ r.binop (suc op.0) (consume p) >>= λ (right, q).
        r.climb min_prec (node_op node_expr_binop (line_at p) op.1 (two left right)) q
  ]

  -- Behind a condition.
  unfoldable pub read_ternary : Node → Parse Node
  read_ternary c q = elim (check tok_question q) [
    | true ↦ r.expr (consume q) >>= λ (yes_node, u). r.expr (expect tok_colon u) >>= λ (no_node, w).
        some (node_new node_expr_ternary (line_of c) (cons c (two yes_node no_node)), w)
    | false ↦ some (c, q)
  ]

  unfoldable pub read_expr : Parse Node
  unfolding read_ternary
  read_expr p = r.binop 0 p >>= λ (c, q). read_ternary c q

unfoldable pub calls : Outer → ℕ → Calls
unfolding read_args read_primary read_chain read_params read_body read_postfix read_post read_unary
    read_binop read_climb read_expr
calls o zero = record {
  type_at = λ p. none;
  return_at = λ buf p. none;
  params = λ line first sig p. none;
  statements = λ p. none;
  primary = λ p. none;
  args = λ closing p. none;
  chain = λ line n p. none;
  postfix = λ p. none;
  post = λ n p. none;
  unary = λ p. none;
  binop = λ m p. none;
  climb = λ m n p. none;
  expr = λ p. none;
}
calls o (suc fuel) = record {
  type_at = consume_type fuel;
  return_at = return_type fuel;
  params = read_params (calls o fuel);
  statements = read_body (calls o fuel) o;
  primary = read_primary (calls o fuel) o;
  args = read_args (calls o fuel);
  chain = read_chain (calls o fuel);
  postfix = read_postfix (calls o fuel);
  post = read_post (calls o fuel);
  unary = read_unary (calls o fuel);
  binop = read_binop (calls o fuel);
  climb = read_climb (calls o fuel);
  expr = read_expr (calls o fuel);
}

abbrev pub parse_primary : Outer → ℕ → Parse Node
parse_primary o fuel = (calls o fuel).primary

abbrev pub parse_postfix : Outer → ℕ → Parse Node
parse_postfix o fuel = (calls o fuel).postfix

abbrev pub parse_unary : Outer → ℕ → Parse Node
parse_unary o fuel = (calls o fuel).unary

abbrev pub parse_binop : Outer → ℕ → ℕ → Parse Node
parse_binop o fuel = (calls o fuel).binop

abbrev pub parse_expr : Outer → ℕ → Parse Node
parse_expr o fuel = (calls o fuel).expr
