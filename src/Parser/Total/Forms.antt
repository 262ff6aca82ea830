-- ===== src/Parser/Total/Forms.antt =====
-- Runs of the branches of `parse_primary`, src/parser.c, given those on fewer tokens.
use lu_language.Prelude.{
  ℕ, ◌≤◌, false, none, some, ◌≡◌, refl, arith, codes, Bool-cases, inl, inr, ◌≢◌,
}
use lu_language.Lexer.Token.{
  TokenType, tok_ident, tok_eof, tok_rparen, tok_lparen, tok_rbracket, tok_colon, tok_lt, tok_gt,
}
use lu_language.Ast.{Node, node, nil, no_lhs, NodeKind, node_expr_unop, node_expr_index}
use lu_language.Parser.Cursor.{Parser, ◌>>=◌, cur_text, check, consume, match_tok}
use lu_language.Parser.Nodes.{node_fields, node_new, node_op, one}
use lu_language.Parser.Types.{consume_type}
use lu_language.Parser.Calls.{Outer}
use lu_language.Parser.Literals.{line_at}
use lu_language.Parser.Forms.{form_of, word_form, lambda_form}
use lu_language.Parser.Expr.{calls}
use lu_language.Parser.Primary.{
  read_cast, read_group, read_list, read_prefix, read_address, read_recv, read_sizeof, read_alloc,
  read_call, read_new, new_name, new_template, sizeof_type,
}
use lu_language.Parser.Total.States.{
  IsFile, size, after, consume-IsFile, size-consume, after_le, match_tok-IsFile, size-match_tok,
  Within, Within-some, Within_le, Within-suc, Within-eq, Within-bind, is_fn,
}
use lu_language.Parser.Total.Types.{consume_type-Within}

pub form-lambda :
    (k : TokenType) (p : Parser) → is_fn k (cur_text p) ≡ false → form_of k p ≢ lambda_form
unfolding form_of word_form
form-lambda tok_ident p h = ground arith
form-lambda tok_lparen p h = ground arith
form-lambda _ p h = cc

module _ (o : Outer) where
  -- Every function of the parser ends at a state: those that begin with an operand pass a token.
  pub record Total (q : Parser) : Type 0 where
    pub chain : (line : ℕ) (x : Node) → Within (λ k. (calls o k).chain line x q) (size q)
    pub post : (x : Node) → Within (λ k. (calls o k).post x q) (size q)
    pub climb : (m : ℕ) (x : Node) → Within (λ k. (calls o k).climb m x q) (size q)
    pub args : (closing : TokenType) → Within (λ k. (calls o k).args closing q) (size q)
    pub primary : Within (λ k. (calls o k).primary q) (after q)
    pub postfix : Within (λ k. (calls o k).postfix q) (after q)
    pub unary : Within (λ k. (calls o k).unary q) (after q)
    pub binop : (m : ℕ) → Within (λ k. (calls o k).binop m q) (after q)
    pub expr : Within (λ k. (calls o k).expr q) (after q)

  -- With at most `n` tokens left everything ends.
  module _ (n : ℕ) (ih : (q : Parser) → IsFile q → size q ≤ n → Total q) where
    pub expr_at : (q : Parser) → IsFile q → size q ≤ n → Within (λ k. (calls o k).expr q) n
    expr_at q f h = let a = after_le q in Within_le _ (after q) n (omega arith) (ih q f h).expr

    pub primary_at : (q : Parser) → IsFile q → size q ≤ n → Within (λ k. (calls o k).primary q) n
    primary_at q f h =
        let a = after_le q in Within_le _ (after q) n (omega arith) (ih q f h).primary

    pub postfix_at : (q : Parser) → IsFile q → size q ≤ n → Within (λ k. (calls o k).postfix q) n
    postfix_at q f h =
        let a = after_le q in Within_le _ (after q) n (omega arith) (ih q f h).postfix

    pub args_at :
        (closing : TokenType) (q : Parser)
        → IsFile q
        → size q ≤ n
        → Within (λ k. (calls o k).args closing q) n
    args_at closing q f h = Within_le _ (size q) n (omega arith) ((ih q f h).args closing)

    pub chain_at :
        (line : ℕ) (x : Node) (q : Parser)
        → IsFile q
        → size q ≤ n
        → Within (λ k. (calls o k).chain line x q) n
    chain_at line x q f h = Within_le _ (size q) n (omega arith) ((ih q f h).chain line x)

    pub type_at : (q : Parser) → IsFile q → size q ≤ n → Within (λ k. (calls o k).type_at q) n
    unfolding calls
    type_at q f h =
        Within-suc _ (λ k. consume_type k q) n (λ k. refl)
          (Within_le _ (size q) n (omega arith) (consume_type-Within q f))

    pub match_le : (k : TokenType) (q : Parser) → IsFile q → size q ≤ n → size (match_tok k q) ≤ n
    match_le k q f h = let a = size-match_tok k q f in omega arith

    pub consume_le : (q : Parser) → IsFile q → size q ≤ n → size (consume q) ≤ n
    consume_le q f h = let a = size-consume q f in let b = after_le q in omega arith

    pub match_done :
        (x : Node) (k : TokenType) (q : Parser)
        → IsFile q
        → size q ≤ n
        → Within (λ fuel. some (x, match_tok k q)) n
    match_done x k q f h =
        Within-some x (match_tok k q) n (match_tok-IsFile k q f) (match_le k q f h)

    abbrev Kept : Parser → Type 0
    Kept q = IsFile q × (size q ≤ n)

    new_name-Kept : (q : Parser) → IsFile q → size q ≤ n → Kept (new_name q).1
    new_name-Kept q f h = elim (Bool-cases (check tok_eof q)) [
      | inl e ↦ rw e (f, h)
      | inr e ↦ rw e (consume-IsFile q f, consume_le q f h)
    ]

    new_template-Kept : (q : Parser) → IsFile q → size q ≤ n → Kept (new_template q).1
    new_template-Kept q f h =
        let f₁ = consume-IsFile q f in
        let h₁ = consume_le q f h in
        let f₂ = consume-IsFile (consume q) f₁ in
        let h₂ = consume_le (consume q) f₁ h₁ in
        elim (Bool-cases (check tok_lt q)) [
          | inl e ↦ rw e (
            match_tok-IsFile tok_gt (consume (consume q)) f₂,
            match_le tok_gt (consume (consume q)) f₂ h₂,
          )
          | inr e ↦ rw e (f, h)
        ]

    -- Behind the first token of a branch.
    module _ (p : Parser) (f : IsFile (consume p)) (h : size (consume p) ≤ n) where
      pub cast-Within : Within (λ k. read_cast (calls o k) p) n
      unfolding read_cast
      cast-Within = Within-bind _ _ n n (type_at (consume p) f h) λ t q fq hq.
          Within-bind _ _ n n
            (postfix_at (match_tok tok_rparen q) (match_tok-IsFile tok_rparen q fq)
              (match_le tok_rparen q fq hq))
            λ x u fu hu. Within-some _ u n fu hu

      pub group-Within : Within (λ k. read_group (calls o k) p) n
      unfolding read_group
      group-Within =
          Within-bind _ (λ k (x, q). some (x, match_tok tok_rparen q)) n n (expr_at (consume p) f h)
            λ x q fq hq. match_done x tok_rparen q fq hq

      pub list-Within : Within (λ k. read_list (calls o k) p) n
      unfolding read_list
      list-Within = Within-bind _ _ n n (args_at tok_rbracket (consume p) f h) λ xs q fq hq.
          match_done (node_op node_expr_index (line_at p) (codes "list") xs) tok_rbracket q fq hq

      pub prefix-Within : Within (λ k. read_prefix (calls o k) p) n
      unfolding read_prefix
      prefix-Within = Within-bind _ _ n n (primary_at (consume p) f h) λ x q fq hq.
          Within-some (node_op node_expr_unop (line_at p) (cur_text p) (one x)) q n fq hq

      pub address-Within : (kind : NodeKind) → Within (λ k. read_address (calls o k) kind p) n
      unfolding read_address
      address-Within kind =
          Within-bind _ _ n n (primary_at (consume p) f h)
            λ x q fq hq. Within-some (node_new kind (line_at p) (one x)) q n fq hq

      pub recv-Within : Within (λ k. read_recv (calls o k) p) n
      unfolding read_recv
      recv-Within =
          Within-some _ (consume (consume p)) n (consume-IsFile (consume p) f)
            (consume_le (consume p) f h)

      pub sizeof-Within : Within (λ k. read_sizeof (calls o k) p) n
      unfolding read_sizeof calls
      sizeof-Within =
          let q = consume (consume p) in
          let fq = consume-IsFile (consume p) f in
          let hq = consume_le (consume p) f h in
          elim (Bool-cases (sizeof_type q)) [
            | inl e ↦
                Within-eq _
                  (λ k. (calls o k).type_at q >>= λ (t, u). some (
                    node
                        (node_fields node_expr_unop (line_at p) none (some (codes "sizeof"))
                          (some t) none)
                        nil no_lhs,
                    match_tok tok_rparen u,
                  ))
                  n (λ k. rw (e, read_sizeof))
                  (Within-bind _ _ n n (type_at q fq hq)
                    λ t u fu hu. match_done _ tok_rparen u fu hu)
            | inr e ↦
                Within-eq _
                  (λ k. (calls o k).expr q >>= λ (x, u). some (
                    node
                        (node_fields node_expr_unop (line_at p) none (some (codes "sizeof")) none
                          none)
                        (one x) no_lhs,
                    match_tok tok_rparen u,
                  ))
                  n (λ k. rw (e, read_sizeof))
                  (Within-bind _ _ n n (expr_at q fq hq)
                    λ x u fu hu. match_done _ tok_rparen u fu hu)
          ]

      pub alloc-Within : Within (λ k. read_alloc (calls o k) p) n
      unfolding read_alloc
      alloc-Within = Within-bind _ _ n n (type_at (consume p) f h) λ t q fq hq.
          Within-bind _ _ n n
            (expr_at (match_tok tok_colon q) (match_tok-IsFile tok_colon q fq)
              (match_le tok_colon q fq hq))
            λ x u fu hu. Within-some _ u n fu hu

      pub call-Within : Within (λ k. read_call (calls o k) p) n
      unfolding read_call
      call-Within =
          let q = consume (consume p) in
          let fq = consume-IsFile (consume p) f in
          let hq = consume_le (consume p) f h in
          Within-bind _ _ n n
            (args_at tok_rparen (match_tok tok_lparen q) (match_tok-IsFile tok_lparen q fq)
              (match_le tok_lparen q fq hq))
            λ xs u fu hu. match_done _ tok_rparen u fu hu

      pub new-Within : Within (λ k. read_new (calls o k) p) n
      unfolding read_new
      new-Within =
          let name = new_name-Kept (consume p) f h in
          let q = (new_template (new_name (consume p)).1).1 in
          let kept = new_template-Kept (new_name (consume p)).1 name.0 name.1 in
          Within-bind _ _ n n
            (args_at tok_rparen (match_tok tok_lparen q) (match_tok-IsFile tok_lparen q kept.0)
              (match_le tok_lparen q kept.0 kept.1))
            λ xs u fu hu. match_done _ tok_rparen u fu hu
