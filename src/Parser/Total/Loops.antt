-- ===== src/Parser/Total/Loops.antt =====
-- Runs of the loops of the expression parser, src/parser.c, given those on fewer tokens.
use lu_language.Prelude.{
  ℕ, suc, ◌≤◌, ◌<◌, Bytes, true, false, ◌||◌, some, ◌≡◌, refl, ◌++◌, arith, codes, snprintf,
  Bool-cases, Option-cases, inl, inr, if◌then◌else◌,
}
use lu_language.Lexer.Token.{
  TokenType, tok_eof, tok_lbracket, tok_dot, tok_ptr_access, tok_inc, tok_dec, tok_comma,
}
use lu_language.Ast.{Node, nil, cons, node_expr_unop, node_expr_binop}
use lu_language.Parser.Cursor.{
  Parser, ◌>>=◌, cur_kind, cur_text, same_kind, check, consume, match_tok,
}
use lu_language.Parser.Nodes.{node_op, one, two}
use lu_language.Parser.Types.{list_end}
use lu_language.Parser.Calls.{Outer}
use lu_language.Parser.Literals.{line_at}
use lu_language.Parser.Names.{read_chain, read_field, read_index}
use lu_language.Parser.Primary.{read_args}
use lu_language.Parser.Expr.{calls, read_post, read_climb, operator_at, enough_prec}
use lu_language.Parser.Total.States.{
  IsFile, size, after, consume-IsFile, size-consume, after_le, after_lt, match_tok-IsFile,
  size-match_tok, Within, Within-some, Within_le, Within-suc, Within-bind,
}
use lu_language.Parser.Total.Types.{list_end-eof}
use lu_language.Parser.Total.Forms.{Total}
use lu_language.Parser.Total.Names.{field-Within, index-Within}

access_eof :
    (k : TokenType)
    → (same_kind k tok_dot || same_kind k tok_ptr_access) ≡ true
    → same_kind k tok_eof ≡ false
access_eof tok_eof h = cc
access_eof _ h = refl

lbracket_eof : (k : TokenType) → same_kind k tok_lbracket ≡ true → same_kind k tok_eof ≡ false
lbracket_eof tok_eof h = cc
lbracket_eof _ h = refl

step_eof :
    (k : TokenType)
    → (same_kind k tok_inc || same_kind k tok_dec) ≡ true
    → same_kind k tok_eof ≡ false
step_eof tok_eof h = cc
step_eof _ h = refl

operator_eof :
    (m : ℕ) (k : TokenType) (v : Bytes) (op : ℕ × Bytes)
    → enough_prec m (operator_at k v) ≡ some op
    → same_kind k tok_eof ≡ false
unfolding operator_at
operator_eof m tok_eof v op h = cc
operator_eof m _ v op h = refl

module _ (o : Outer) (n : ℕ) (ih : (q : Parser) → IsFile q → size q < n → Total o q) where
  module _ (p : Parser) (f : IsFile p) (h : size p ≤ n) where
    -- What is left behind a token that is not the end of the file.
    pub smaller : check tok_eof p ≡ false → (q : Parser) → IsFile q → size q ≤ after p → Total o q
    smaller live q fq hq = let a = after_lt p f live in ih q fq (omega arith)

    pub chain-Within : (line : ℕ) (x : Node) → Within (λ k. (calls o k).chain line x p) (size p)
    unfolding calls
    chain-Within line x =
        let fc = consume-IsFile p f in
        let hc = size-consume p f in
        let le = after_le p in
        elim (Bool-cases (check tok_dot p || check tok_ptr_access p)) [
          | inl e ↦
              let op = if check tok_ptr_access p then codes "->" else codes "." in
              Within-suc _ (λ k. read_field (calls o k) op line x p) (size p)
                (λ k. rw (e, read_chain))
                (Within_le _ (after p) (size p) le (
                  field-Within o (after p) (smaller (access_eof (cur_kind p) e)) p fc hc op line x))
          | inr e ↦ elim (Bool-cases (check tok_lbracket p)) [
            | inl b ↦
                Within-suc _ (λ k. read_index (calls o k) line x p) (size p)
                  (λ k. rw (e, b, read_chain))
                  (Within_le _ (after p) (size p) le (
                    index-Within o (after p) (smaller (lbracket_eof (cur_kind p) b)) p fc hc line
                      x))
            | inr b ↦
                Within-suc _ (λ k. some (x, p)) (size p) (λ k. rw (e, b, read_chain))
                  (Within-some x p (size p) f (omega arith))
          ]
        ]

    pub post-Within : (x : Node) → Within (λ k. (calls o k).post x p) (size p)
    unfolding calls
    post-Within x =
        let fc = consume-IsFile p f in
        let hc = size-consume p f in
        let le = after_le p in
        elim (Bool-cases (check tok_inc p || check tok_dec p)) [
          | inl e ↦
              let y =
                node_op node_expr_unop (line_at p) (snprintf 16 (cur_text p ++ codes "_post"))
                  (one x) in
              Within-suc _ (λ k. (calls o k).post y (consume p)) (size p) (λ k. rw (e, read_post))
                (Within_le _ (size (consume p)) (size p) (omega arith)
                  ((smaller (step_eof (cur_kind p) e) (consume p) fc hc).post y))
          | inr e ↦
              Within-suc _ (λ k. some (x, p)) (size p) (λ k. rw (e, read_post))
                (Within-some x p (size p) f (omega arith))
        ]

    pub climb-Within : (m : ℕ) (x : Node) → Within (λ k. (calls o k).climb m x p) (size p)
    unfolding calls
    climb-Within m x =
        let fc = consume-IsFile p f in
        let hc = size-consume p f in
        let le = after_le p in
        elim (Option-cases (enough_prec m (operator_at (cur_kind p) (cur_text p)))) [
          | inl e ↦
              Within-suc _ (λ k. some (x, p)) (size p) (λ k. rw (e, read_climb))
                (Within-some x p (size p) f (omega arith))
          | inr (op, e) ↦
              let below = smaller (operator_eof m (cur_kind p) (cur_text p) op e) in
              let le_c = after_le (consume p) in
              Within-suc _
                (λ k. (calls o k).binop (suc op.0) (consume p) >>= λ (y, q).
                  (calls o k).climb m (node_op node_expr_binop (line_at p) op.1 (two x y)) q)
                (size p) (λ k. rw (e, read_climb))
                (Within-bind _ _ (after (consume p)) (size p)
                  ((below (consume p) fc hc).binop (suc op.0))
                  λ y q fq hq. Within_le _ (size q) (size p) (omega arith) (
                    (below q fq (omega arith)).climb m
                      (node_op node_expr_binop (line_at p) op.1 (two x y))))
        ]

    -- The loop over a list, where an expression passes a token.
    pub args-Within :
        Within (λ k. (calls o k).expr p) (after p)
        → (closing : TokenType) → Within (λ k. (calls o k).args closing p) (size p)
    unfolding calls
    args-Within item closing = elim (Bool-cases (list_end closing p)) [
      | inl e ↦
          Within-suc _ (λ k. some (nil, p)) (size p) (λ k. rw (e, read_args))
            (Within-some nil p (size p) f (omega arith))
      | inr e ↦
          let le = after_le p in
          Within-suc _
            (λ k. (calls o k).expr p >>= λ (x, q).
              (calls o k).args closing (match_tok tok_comma q) >>= λ (xs, u). some (cons x xs, u))
            (size p) (λ k. rw (e, read_args))
            (Within-bind _ _ (after p) (size p) item λ x q fq hq.
              let u = match_tok tok_comma q in
              let fu = match_tok-IsFile tok_comma q fq in
              let hu = size-match_tok tok_comma q fq in
              Within-bind _ _ (size u) (size p)
                ((smaller (list_end-eof closing p e) u fu (omega arith)).args closing)
                λ xs w fw hw. Within-some (cons x xs) w (size p) fw (omega arith))
    ]
