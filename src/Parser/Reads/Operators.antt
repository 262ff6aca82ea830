-- ===== src/Parser/Reads/Operators.antt =====
-- What the functions for operators of src/parser.c do: `++` and `--` behind a phrase, `not`, binary
-- operators and the conditional.
use lu_language.Prelude.{
  ℕ, suc, ◌≤◌, Bytes, Bool, true, false, some, ◌≡◌, refl, ◌++◌, codes, snprintf, arith, ltb, streq,
}
use lu_language.Lexer.Token.{Token, tok_question, tok_colon}
use lu_language.Ast.{Node, cons, node_expr_unop, node_expr_binop, node_expr_ternary}
use lu_language.Parser.Cursor.{Parser, ◌>>=◌, expect}
use lu_language.Parser.Nodes.{node_new, node_op, one, two, line_of}
use lu_language.Parser.Calls.{Outer, Calls}
use lu_language.Parser.Expr.{
  calls, operator_at, read_post, read_unary, read_climb, read_expr, read_ternary,
}
use lu_language.Parser.Fuel.{Ends-some, Ends-suc, Ends-bind, Ends-call}
use lu_language.Parser.Phrase.{
  Phrase, written, push, tree, level, of_kind, step_kind, post, negation, binary, ternary,
}
use lu_language.Parser.Reads.Tokens.{is_access, operator-is_access, operator-is_step}
use lu_language.Parser.Reads.Levels.{ReadsPostfix, ReadsUnary, ReadsBinop, ReadsExpr, climb_stops}

module _ (o : Outer) where
  post_step :
      (down : Bool) (t : Token) (x : Node) (p : Parser) (k : ℕ)
      → (calls o (suc k)).post x (push (of_kind (step_kind down) t) p)
        ≡ (calls o k).post
            (node_op node_expr_unop t.line (snprintf 16 (t.value ++ codes "_post")) (one x))
            p
  unfolding calls read_post
  post_step true t x p k = refl
  post_step false t x p k = refl

  step-is_access : (down : Bool) → is_access (step_kind down) ≡ false
  step-is_access true = refl
  step-is_access false = refl

  pub post-ReadsPostfix :
      (down : Bool) (t : Token) (e : Phrase) → ReadsPostfix o e → ReadsPostfix o (post down t e)
  unfolding written tree
  post-ReadsPostfix down t e reads p res h ends =
      reads (push (of_kind (step_kind down) t) p) res (step-is_access down) (
        Ends-suc _ (λ k. (calls o k).post (tree o (post down t e)) p) res
          (λ k. post_step down t (tree o e) p k) ends)

  pub negation-ReadsUnary : (t : Token) (e : Phrase) → ReadsUnary o e → ReadsUnary o (negation t e)
  unfolding written tree calls read_unary streq
  negation-ReadsUnary t e reads p h s =
      Ends-call _ (λ k. (calls o k).unary (written e p))
        (λ k (x, q). some (node_op node_expr_unop t.line (codes "!") (one x), q)) (tree o e, p)
        (tree o (negation t e), p) (λ k. refl) (reads p h s) (Ends-some _)

  climb_step :
      (r : Calls) (m prec : ℕ) (op : Bytes) (t : Token) (x : Node) (q : Parser)
      → operator_at t.type t.value ≡ some (prec, op)
      → m ≤ prec
      → read_climb r m x (push t q) ≡ (
          r.binop (suc prec) q >>= λ (y, u).
          r.climb m (node_op node_expr_binop t.line op (two x y)) u)
  unfolding read_climb
  climb_step r m prec op t x q h fits =
      let enough : ltb prec m ≡ false = ground arith in rw (h, enough, read_climb)

  pub binary-ReadsBinop :
      (t : Token) (prec : ℕ) (op : Bytes) (l r : Phrase)
      → operator_at t.type t.value ≡ some (prec, op)
      → prec ≤ level l
      → suc prec ≤ level r
      → ReadsBinop o l
      → ReadsBinop o r
      → ReadsBinop o (binary t prec op l r)
  unfolding written tree calls level
  binary-ReadsBinop t prec op l r h left right reads_l reads_r m p res fits access step loose ends =
      reads_l m (push t (written r p)) res (omega arith)
        (operator-is_access t.type t.value (prec, op) h)
        (operator-is_step t.type t.value (prec, op) h)
        (λ op₂ h₂. let same : (prec, op) ≡ op₂ = cc in rw (← same) left)
        (Ends-call _ (λ k. (calls o k).binop (suc prec) (written r p))
          (λ k (y, u). (calls o k).climb m (node_op node_expr_binop t.line op (two (tree o l) y)) u)
          (tree o r, p) res
          (λ k. climb_step (calls o k) m prec op t (tree o l) (written r p) h (omega arith))
          (reads_r (suc prec) p (tree o r, p) (omega arith) access step
            (λ op₂ h₂. let b = loose op₂ h₂ in omega arith)
            (climb_stops o (suc prec) prec (tree o r) p (omega arith) loose))
          ends)

  pub ternary-ReadsExpr :
      (t u : Token) (c a b : Phrase)
      → ReadsBinop o c
      → ReadsExpr o a
      → ReadsExpr o b
      → ReadsExpr o (ternary t u c a b)
  unfolding written tree calls read_expr read_ternary read_climb operator_at expect
  ternary-ReadsExpr t u c a b reads_c reads_a reads_b p stop =
      let w = push (of_kind tok_colon u) (written b p) in
      let q = push (of_kind tok_question t) (written a w) in
      Ends-call _ (λ k. (calls o k).binop 0 (written c q))
        (λ k (x, v). read_ternary (calls o k) x v) (tree o c, q) (tree o (ternary t u c a b), p)
        (λ k. refl)
        (reads_c 0 q (tree o c, q) (omega arith) refl refl (λ op h. absurd (cc))
          (Ends-suc _ (λ k. some (tree o c, q)) (tree o c, q) (λ k. refl) (Ends-some _)))
        (Ends-bind (λ k. (calls o k).expr (written a w))
          (λ k (y, v). (calls o k).expr (expect tok_colon v) >>= λ (z, x).
            some (node_new node_expr_ternary (line_of (tree o c)) (cons (tree o c) (two y z)), x))
          (tree o a, w) (tree o (ternary t u c a b), p) (reads_a w ((refl, refl), (refl, refl)))
          (Ends-bind (λ k. (calls o k).expr (written b p))
            (λ k (z, x). some (
              node_new node_expr_ternary (line_of (tree o c)) (cons (tree o c) (two (tree o a) z)),
              x,
            ))
            (tree o b, p) (tree o (ternary t u c a b), p) (reads_b p stop) (Ends-some _)))
