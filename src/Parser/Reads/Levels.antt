-- ===== src/Parser/Reads/Levels.antt =====
-- What the functions of the expression parser, src/parser.c, do with a phrase, and how each serves
-- the next one.
use lu_language.Prelude.{
  ℕ, ◌≤◌, ◌<◌, true, false, none, some, ◌≡◌, refl, ltb, List, arith, Option-cases, inl, inr,
}
use lu_language.Lexer.Token.{tok_lparen, tok_question}
use lu_language.Ast.{Node}
use lu_language.Parser.Cursor.{Parser, cur_kind, cur_text, same_kind}
use lu_language.Parser.Calls.{Outer, Calls}
use lu_language.Parser.Names.{read_chain}
use lu_language.Parser.Expr.{
  calls, operator_at, is_not, read_postfix, read_post, read_unary, read_binop, read_climb,
  read_expr, read_ternary,
}
use lu_language.Parser.Fuel.{Ends, Ends-some, Ends-suc, Ends-eq, Ends-call}
use lu_language.Parser.Phrase.{Phrase, written, tree, start_line, level}
use lu_language.Parser.Reads.Tokens.{is_access, is_step}

-- The operator at the state, if there is one, holds no more tightly than `prec`.
abbrev pub IsLoose : ℕ → Parser → Type 0
IsLoose prec p = (op : ℕ × List ℕ) → operator_at (cur_kind p) (cur_text p) ≡ some op → op.0 ≤ prec

-- Nothing at the state goes on with an expression.
abbrev pub Stops : Parser → Type 0
Stops p =
    ((is_access (cur_kind p) ≡ false) × (is_step (cur_kind p) ≡ false))
    × ((operator_at (cur_kind p) (cur_text p) ≡ none)
        × (same_kind (cur_kind p) tok_question ≡ false))

module _ (o : Outer) where
  abbrev pub ReadsChain : Phrase → Type 0
  ReadsChain e =
      (p : Parser) (res : Node × Parser)
      → same_kind (cur_kind p) tok_lparen ≡ false
      → Ends (λ k. (calls o k).chain (start_line e) (tree o e) p) res
      → Ends (λ k. (calls o k).primary (written e p)) res

  abbrev pub ReadsPrimary : Phrase → Type 0
  ReadsPrimary e =
      (p : Parser)
      → is_access (cur_kind p) ≡ false
      → Ends (λ k. (calls o k).primary (written e p)) (tree o e, p)

  abbrev pub ReadsPostfix : Phrase → Type 0
  ReadsPostfix e =
      (p : Parser) (res : Node × Parser)
      → is_access (cur_kind p) ≡ false
      → Ends (λ k. (calls o k).post (tree o e) p) res
      → Ends (λ k. (calls o k).postfix (written e p)) res

  abbrev pub ReadsUnary : Phrase → Type 0
  ReadsUnary e =
      (p : Parser)
      → is_access (cur_kind p) ≡ false
      → is_step (cur_kind p) ≡ false
      → Ends (λ k. (calls o k).unary (written e p)) (tree o e, p)

  abbrev pub ReadsBinop : Phrase → Type 0
  ReadsBinop e =
      (m : ℕ) (p : Parser) (res : Node × Parser)
      → m ≤ level e
      → is_access (cur_kind p) ≡ false
      → is_step (cur_kind p) ≡ false
      → IsLoose (level e) p
      → Ends (λ k. (calls o k).climb m (tree o e) p) res
      → Ends (λ k. (calls o k).binop m (written e p)) res

  abbrev pub ReadsExpr : Phrase → Type 0
  ReadsExpr e = (p : Parser) → Stops p → Ends (λ k. (calls o k).expr (written e p)) (tree o e, p)

  read_chain-stops :
      (r : Calls) (line : ℕ) (n : Node) (p : Parser)
      → is_access (cur_kind p) ≡ false
      → read_chain r line n p ≡ some (n, p)
  unfolding read_chain
  read_chain-stops r line n p h = ground arith

  chain_stops :
      (line : ℕ) (n : Node) (p : Parser)
      → is_access (cur_kind p) ≡ false
      → Ends (λ k. (calls o k).chain line n p) (n, p)
  unfolding calls
  chain_stops line n p h =
      Ends-suc _ (λ k. some (n, p)) (n, p) (λ k. read_chain-stops (calls o k) line n p h)
        (Ends-some (n, p))

  pub post_stops :
      (n : Node) (p : Parser)
      → is_step (cur_kind p) ≡ false
      → Ends (λ k. (calls o k).post n p) (n, p)
  unfolding calls
  post_stops n p h =
      Ends-suc _ (λ k. some (n, p)) (n, p) (λ k. rw (h, read_post)) (Ends-some (n, p))

  -- The loop ends at an operator that holds less tightly.
  pub climb_stops :
      (m prec : ℕ) (n : Node) (p : Parser)
      → prec < m
      → IsLoose prec p
      → Ends (λ k. (calls o k).climb m n p) (n, p)
  unfolding calls
  climb_stops m prec n p h loose = elim (Option-cases (operator_at (cur_kind p) (cur_text p))) [
    | inl e ↦ Ends-suc _ (λ k. some (n, p)) (n, p) (λ k. rw (e, read_climb)) (Ends-some (n, p))
    | inr (op, e) ↦
        let below = loose op e in
        let small : ltb op.0 m ≡ true = ground arith in
        Ends-suc _ (λ k. some (n, p)) (n, p) (λ k. rw (e, small, read_climb)) (Ends-some (n, p))
  ]

  module _ (e : Phrase) where
    pub chain-primary : ReadsChain e → ReadsPrimary e
    chain-primary reads p h =
        reads p (tree o e, p) (grind arith) (chain_stops (start_line e) (tree o e) p h)

    pub primary-postfix : ReadsPrimary e → ReadsPostfix e
    unfolding calls read_postfix
    primary-postfix reads p res h ends =
        Ends-call _ (λ k. (calls o k).primary (written e p)) (λ k (n, q). (calls o k).post n q)
          (tree o e, p) res (λ k. refl) (reads p h) ends

    pub postfix-unary :
        ((p : Parser) → is_not (written e p) ≡ false) → ReadsPostfix e → ReadsUnary e
    unfolding calls
    postfix-unary plain reads p h s =
        Ends-suc _ (λ k. (calls o k).postfix (written e p)) (tree o e, p)
          (λ k. rw (plain p, read_unary)) (reads p (tree o e, p) h (post_stops (tree o e) p s))

    pub unary-binop : ReadsUnary e → ReadsBinop e
    unfolding calls read_binop
    unary-binop reads m p res fits h s loose ends =
        Ends-call _ (λ k. (calls o k).unary (written e p)) (λ k (n, q). (calls o k).climb m n q)
          (tree o e, p) res (λ k. refl) (reads p h s) ends

    -- A conditional is no phrase that the operators' loop reads.
    pub binop-expr : ReadsBinop e → ReadsExpr e
    unfolding calls read_expr
    binop-expr reads p stop =
        Ends-call _ (λ k. (calls o k).binop 0 (written e p))
          (λ k (c, q). read_ternary (calls o k) c q) (tree o e, p) (tree o e, p) (λ k. refl)
          (reads 0 p (tree o e, p) (omega arith) stop.0.0 stop.0.1 (λ op h. cc)
            (Ends-suc _ (λ k. some (tree o e, p)) (tree o e, p) (λ k. rw (stop.1.0, read_climb))
              (Ends-some _)))
          (Ends-eq _ (λ k. some (tree o e, p)) _ (λ k. rw (stop.1.1, read_ternary)) (Ends-some _))
