-- ===== src/Parser/Total/Whole.antt =====
-- Runs of the expression parser of src/parser.c on tokens without `fn`: induction on the tokens that
-- are left.
use lu_language.Prelude.{
  ℕ, zero, suc, ◌≤◌, ◌<◌, Bytes, true, false, ◌&&◌, some, ◌≡◌, refl, arith, codes, streq,
  Bool-cases, inl, inr,
}
use lu_language.Lexer.Token.{TokenType, tok_eof, tok_ident, tok_question, tok_colon}
use lu_language.Ast.{Node, cons, node_expr_unop, node_expr_ternary}
use lu_language.Parser.Cursor.{Parser, ◌>>=◌, cur_kind, cur_text, same_kind, check, consume, expect}
use lu_language.Parser.Nodes.{node_new, node_op, one, two, line_of}
use lu_language.Parser.Calls.{Outer}
use lu_language.Parser.Literals.{line_at}
use lu_language.Parser.Expr.{
  calls, is_not, read_postfix, read_unary, read_binop, read_expr, read_ternary, parse_expr,
}
use lu_language.Parser.Total.States.{
  IsFile, size, after, consume-IsFile, size-consume, after_le, after_lt, expect-IsFile, size-expect,
  Within, Within-some, Within_le, Within-suc, Within-eq, Within-bind,
}
use lu_language.Parser.Total.Forms.{Total}
use lu_language.Parser.Total.Loops.{chain-Within, post-Within, climb-Within, args-Within}
use lu_language.Parser.Total.Primary.{primary-Within}

question_eof : (k : TokenType) → same_kind k tok_question ≡ true → same_kind k tok_eof ≡ false
question_eof tok_eof h = cc
question_eof _ h = refl

not_eof :
    (k : TokenType) (v : Bytes)
    → (same_kind k tok_ident && streq v (codes "not")) ≡ true
    → same_kind k tok_eof ≡ false
not_eof tok_eof v h = cc
not_eof _ v h = refl

module _ (o : Outer) (n : ℕ) (ih : (q : Parser) → IsFile q → size q < n → Total o q) where
  ternary-Within :
      (c : Node) (u : Parser)
      → IsFile u
      → size u ≤ n
      → Within (λ k. read_ternary (calls o k) c u) (size u)
  unfolding read_ternary calls
  ternary-Within c u f h = elim (Bool-cases (check tok_question u)) [
    | inl e ↦
        let a = after_lt u f (question_eof (cur_kind u) e) in
        let fc = consume-IsFile u f in
        let hc = size-consume u f in
        let le_c = after_le (consume u) in
        Within-eq _
          (λ k. (calls o k).expr (consume u) >>= λ (x, v).
            (calls o k).expr (expect tok_colon v) >>= λ (y, w).
            some (node_new node_expr_ternary (line_of c) (cons c (two x y)), w))
          (size u) (λ k. rw (e, read_ternary))
          (Within-bind _ _ (after (consume u)) (size u) (ih (consume u) fc (omega arith)).expr
            λ x v fv hv.
              let w = expect tok_colon v in
              let fw = expect-IsFile tok_colon v fv in
              let hw = size-expect tok_colon v fv in
              let le_w = after_le w in
              Within-bind _ _ (after w) (size u) (ih w fw (omega arith)).expr λ y z fz hz.
                Within-some (node_new node_expr_ternary (line_of c) (cons c (two x y))) z (size u)
                  fz (omega arith))
    | inr e ↦
        Within-eq _ (λ k. some (c, u)) (size u) (λ k. rw (e, read_ternary))
          (Within-some c u (size u) f (omega arith))
  ]

  module _ (p : Parser) (f : IsFile p) (h : size p ≤ n) where
    postfix-Within : Within (λ k. (calls o k).postfix p) (after p)
    unfolding calls read_postfix
    postfix-Within =
        let le = after_le p in
        Within-suc _ (λ k. (calls o k).primary p >>= λ (x, q). (calls o k).post x q) (after p)
          (λ k. refl)
          (Within-bind _ (λ k (x, q). (calls o k).post x q) (after p) (after p)
            (primary-Within o n ih p f h)
            λ x q fq hq.
              Within_le _ (size q) (after p) hq (post-Within o n ih q fq (omega arith) x))

    unary-Within : Within (λ k. (calls o k).unary p) (after p)
    unfolding calls
    unary-Within = elim (Bool-cases (is_not p)) [
      | inl e ↦
          let a = after_lt p f (not_eof (cur_kind p) (cur_text p) e) in
          let fc = consume-IsFile p f in
          let hc = size-consume p f in
          let le = after_le (consume p) in
          Within-suc _
            (λ k. (calls o k).unary (consume p) >>= λ (x, q).
              some (node_op node_expr_unop (line_at p) (codes "!") (one x), q))
            (after p) (λ k. rw (e, read_unary))
            (Within-bind _ _ (after (consume p)) (after p) (ih (consume p) fc (omega arith)).unary
              λ x q fq hq.
                Within-some (node_op node_expr_unop (line_at p) (codes "!") (one x)) q (after p) fq
                  (omega arith))
      | inr e ↦
          Within-suc _ (λ k. (calls o k).postfix p) (after p) (λ k. rw (e, read_unary))
            postfix-Within
    ]

    binop-Within : (m : ℕ) → Within (λ k. (calls o k).binop m p) (after p)
    unfolding calls read_binop
    binop-Within m =
        let le = after_le p in
        Within-suc _ (λ k. (calls o k).unary p >>= λ (x, q). (calls o k).climb m x q) (after p)
          (λ k. refl)
          (Within-bind _ (λ k (x, q). (calls o k).climb m x q) (after p) (after p) unary-Within
            λ x q fq hq.
              Within_le _ (size q) (after p) hq (climb-Within o n ih q fq (omega arith) m x))

    expr-Within : Within (λ k. (calls o k).expr p) (after p)
    unfolding calls read_expr
    expr-Within =
        let le = after_le p in
        Within-suc _ (λ k. (calls o k).binop 0 p >>= λ (c, q). read_ternary (calls o k) c q)
          (after p) (λ k. refl)
          (Within-bind _ (λ k (c, q). read_ternary (calls o k) c q) (after p) (after p)
            (binop-Within 0)
            λ c q fq hq. Within_le _ (size q) (after p) hq (ternary-Within c q fq (omega arith)))

    whole : Total o p
    whole = record {
      chain = chain-Within o n ih p f h;
      post = post-Within o n ih p f h;
      climb = climb-Within o n ih p f h;
      args = args-Within o n ih p f h expr-Within;
      primary = primary-Within o n ih p f h;
      postfix = postfix-Within;
      unary = unary-Within;
      binop = binop-Within;
      expr = expr-Within;
    }

Total-below : (o : Outer) (n : ℕ) (p : Parser) → IsFile p → size p < n → Total o p
Total-below o zero p f h = absurd (omega arith)
Total-below o (suc n) p f h = whole o n (Total-below o n) p f (omega arith)

-- On tokens that end with the end of the file and hold no word fn, parse_expr ends: with any fuel
-- from some amount on it answers one result, whose state is again such a file, with at least one
-- token passed unless it began at an end of file.
pub parse_expr-Within :
    (o : Outer) (p : Parser) → IsFile p → Within (λ fuel. parse_expr o fuel p) (after p)
parse_expr-Within o p f = (Total-below o (suc (size p)) p f (omega arith)).expr
