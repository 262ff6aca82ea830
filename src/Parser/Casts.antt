-- ===== src/Parser/Casts.antt =====
-- A parenthesis around one name, in `parse_primary` of src/parser.c.
use lu_language.Prelude.{ℕ, Bytes, false, none, some, ◌≡◌, refl, ◌++◌, codes, snprintf, streq}
use lu_language.Lexer.Token.{Token, tok_lparen, tok_rparen}
use lu_language.Ast.{Node, node, no_lhs, node_expr_unop}
use lu_language.Parser.Cursor.{Parser, match_tok, peek_tok, ◌>>=◌}
use lu_language.Parser.Nodes.{node_fields, one}
use lu_language.Parser.Types.{consume_type, type_form, read_named, star_suffix}
use lu_language.Parser.Calls.{Outer}
use lu_language.Parser.Forms.{form_of, cast_form}
use lu_language.Parser.Primary.{read_form, read_cast}
use lu_language.Parser.Expr.{calls, parse_primary, parse_postfix}
use lu_language.Parser.Fuel.{Ends, Ends-some, Ends-suc, Ends-bind, Ends-call}
use lu_language.Parser.Phrase.{push, of_kind, of_word}
use lu_language.Parser.Reads.Items.{primary-form}

-- The cast of an operand to the type of a name.
abbrev pub cast_node : ℕ → Bytes → Node → Node
cast_node line t operand =
    let op = snprintf 128 (codes "(cast:" ++ (t ++ codes ")")) in
    node (node_fields node_expr_unop line none (some op) (some t) none) (one operand) no_lhs

consume_type-name :
    (o : Outer) (v : Bytes) (t b : Token) (p : Parser)
    → streq v (codes "fn") ≡ false
    → let q = push (of_kind tok_rparen b) p in
      Ends (λ k. (calls o k).type_at (push (of_word v t) q)) (v, q)
unfolding calls consume_type read_named star_suffix type_form
consume_type-name o v t b p h =
    let q = push (of_kind tok_rparen b) p in
    Ends-suc _ (λ k. consume_type k (push (of_word v t) q)) (v, q) (λ k. refl)
      (Ends-suc _ (λ k. read_named k (push (of_word v t) q)) (v, q)
        (λ k. rw (h, consume_type, type_form))
        (Ends-suc _ (λ k. some (v, q)) (v, q) (λ k. refl) (Ends-some _)))

-- (name), which groups the name in C, is read as a cast: of whatever stands behind it and to a type
-- with that name. This holds for every name but fn.
pub parse_primary-cast :
    (o : Outer) (v : Bytes) (a t b : Token) (p : Parser) (n : Node) (q : Parser)
    → streq v (codes "fn") ≡ false
    → Ends (λ fuel. parse_postfix o fuel p) (n, q)
    → Ends
        (λ fuel.
          parse_primary o fuel
            (push (of_kind tok_lparen a) (push (of_word v t) (push (of_kind tok_rparen b) p))))
        (cast_node a.line v n, q)
unfolding calls read_form read_cast form_of peek_tok match_tok
parse_primary-cast o v a t b p n q h ends =
    let u = push (of_kind tok_rparen b) p in
    Ends-call _ (λ k. (calls o k).type_at (push (of_word v t) u))
      (λ k (tname, w). (calls o k).postfix (match_tok tok_rparen w) >>= λ (operand, x).
        some (cast_node a.line tname operand, x))
      (v, u) (cast_node a.line v n, q)
      (λ k. primary-form o (of_kind tok_lparen a) (push (of_word v t) u) cast_form k refl refl)
      (consume_type-name o v t b p h)
      (Ends-bind (λ k. (calls o k).postfix p)
        (λ k (operand, x). some (cast_node a.line v operand, x)) (n, q) (cast_node a.line v n, q)
        ends (Ends-some _))
