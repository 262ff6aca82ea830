-- ===== src/Parser/Total/Names.antt =====
-- Runs of the branch for names of `parse_primary`, src/parser.c, and of the loop over accesses, given
-- those on fewer tokens.
use lu_language.Prelude.{ℕ, ◌≤◌, Bytes, Bool-cases, inl, inr}
use lu_language.Lexer.Token.{tok_rparen, tok_lparen, tok_rbracket, tok_colon}
use lu_language.Ast.{Node, nil, node_ident, node_func_call}
use lu_language.Parser.Cursor.{Parser, ◌>>=◌, cur_text, check, consume, match_tok}
use lu_language.Parser.Nodes.{node_text}
use lu_language.Parser.Calls.{Outer}
use lu_language.Parser.Literals.{line_at}
use lu_language.Parser.Names.{
  read_name, read_field, read_index, read_behind, field_node, slice_node, index_node,
}
use lu_language.Parser.Expr.{calls}
use lu_language.Parser.Total.States.{
  IsFile, size, consume-IsFile, match_tok-IsFile, Within, Within-eq, Within-bind,
}
use lu_language.Parser.Total.Forms.{Total, expr_at, args_at, chain_at, match_le, consume_le}

module _ (o : Outer) (n : ℕ) (ih : (q : Parser) → IsFile q → size q ≤ n → Total o q) where
  behind-Within :
      (line : ℕ) (x first : Node) (q : Parser)
      → IsFile q
      → size q ≤ n
      → Within (λ k. read_behind (calls o k) line x first q) n
  unfolding read_behind calls
  behind-Within line x first q f h = elim (Bool-cases (check tok_colon q)) [
    | inl e ↦
        Within-eq _
          (λ k. (calls o k).expr (consume q) >>= λ (stop, u).
            (calls o k).chain line (slice_node line x first stop) (match_tok tok_rbracket u))
          n (λ k. rw (e, read_behind))
          (Within-bind _ _ n n
            (expr_at o n ih (consume q) (consume-IsFile q f) (consume_le o n ih q f h))
            λ stop u fu hu.
              chain_at o n ih line (slice_node line x first stop) (match_tok tok_rbracket u)
                (match_tok-IsFile tok_rbracket u fu) (match_le o n ih tok_rbracket u fu hu))
    | inr e ↦
        Within-eq _
          (λ k. (calls o k).chain line (index_node line x first) (match_tok tok_rbracket q)) n
          (λ k. rw (e, read_behind))
          (chain_at o n ih line (index_node line x first) (match_tok tok_rbracket q)
            (match_tok-IsFile tok_rbracket q f) (match_le o n ih tok_rbracket q f h))
  ]

  module _ (p : Parser) (f : IsFile (consume p)) (h : size (consume p) ≤ n) where
    pub index-Within : (line : ℕ) (x : Node) → Within (λ k. read_index (calls o k) line x p) n
    unfolding read_index
    index-Within line x =
        Within-bind _ (λ k (first, q). read_behind (calls o k) line x first q) n n
          (expr_at o n ih (consume p) f h) λ first q fq hq. behind-Within line x first q fq hq

    pub field-Within :
        (op : Bytes) (line : ℕ) (x : Node) → Within (λ k. read_field (calls o k) op line x p) n
    unfolding read_field
    field-Within op line x =
        chain_at o n ih line (field_node line op (cur_text (consume p)) x) (consume (consume p))
          (consume-IsFile (consume p) f) (consume_le o n ih (consume p) f h)

    pub name-Within : Within (λ k. read_name (calls o k) p) n
    unfolding read_name calls
    name-Within =
        let q = consume p in
        let line = line_at p in
        elim (Bool-cases (check tok_lparen q)) [
          | inl e ↦
              Within-eq _
                (λ k. (calls o k).args tok_rparen (consume q) >>= λ (es, u).
                  (calls o k).chain line (node_text node_func_call line (cur_text p) es)
                    (match_tok tok_rparen u))
                n (λ k. rw (e, read_name))
                (Within-bind _ _ n n
                  (args_at o n ih tok_rparen (consume q) (consume-IsFile q f)
                    (consume_le o n ih q f h))
                  λ es u fu hu.
                    chain_at o n ih line (node_text node_func_call line (cur_text p) es)
                      (match_tok tok_rparen u) (match_tok-IsFile tok_rparen u fu)
                      (match_le o n ih tok_rparen u fu hu))
          | inr e ↦
              Within-eq _
                (λ k. (calls o k).chain line (node_text node_ident line (cur_text p) nil) q) n
                (λ k. rw (e, read_name))
                (chain_at o n ih line (node_text node_ident line (cur_text p) nil) q f h)
        ]
