-- ===== src/Parser/Reads/Whole.antt =====
-- The expression parser of src/parser.c on every phrase, by induction on it.
use lu_language.Prelude.{◌≤◌, ◌≡◌, refl, arith}
use lu_language.Parser.Cursor.{Parser}
use lu_language.Parser.Calls.{Outer}
use lu_language.Parser.Expr.{parse_expr}
use lu_language.Parser.Fuel.{Ends, Ends-unique}
use lu_language.Parser.Phrase.{
  Phrase, Phrases, written, tree, level, IsValid, AllValid, single, name, group, list, prefix, call,
  field, index, slice, post, negation, binary, ternary, empty, last, and_more,
}
use lu_language.Parser.Reads.Tokens.{operator_bounds}
use lu_language.Parser.Reads.First.{written-is_not}
use lu_language.Parser.Reads.Levels.{
  Stops, ReadsChain, ReadsPrimary, ReadsPostfix, ReadsUnary, ReadsBinop, ReadsExpr, chain-primary,
  primary-postfix, postfix-unary, unary-binop, binop-expr,
}
use lu_language.Parser.Reads.Items.{
  ReadsArgs, single-ReadsPrimary, group-ReadsPrimary, empty-ReadsArgs, last-ReadsArgs,
  and_more-ReadsArgs, list-ReadsPrimary, prefix-ReadsPrimary,
}
use lu_language.Parser.Reads.Access.{
  name-ReadsChain, call-ReadsChain, field-ReadsChain, index-ReadsChain, slice-ReadsChain,
}
use lu_language.Parser.Reads.Operators.{
  post-ReadsPostfix, negation-ReadsUnary, binary-ReadsBinop, ternary-ReadsExpr,
}

module _ (o : Outer) where
  -- Each function reads the phrases of its level and above.
  record Reads (e : Phrase) : Type 0 where
    chain : 16 ≤ level e → ReadsChain o e
    primary : 15 ≤ level e → ReadsPrimary o e
    postfix : 14 ≤ level e → ReadsPostfix o e
    unary : 13 ≤ level e → ReadsUnary o e
    binop : 1 ≤ level e → ReadsBinop o e
    expr : ReadsExpr o e

  module _ (e : Phrase) (v : IsValid e) where
    of_binop : (level e ≤ 12) → ReadsBinop o e → Reads e
    of_binop h b = record {
      chain = λ k. absurd (omega arith);
      primary = λ k. absurd (omega arith);
      postfix = λ k. absurd (omega arith);
      unary = λ k. absurd (omega arith);
      binop = λ k. b;
      expr = binop-expr o e b;
    }

    of_unary : (level e ≤ 13) → ReadsUnary o e → Reads e
    of_unary h u = record {
      chain = λ k. absurd (omega arith);
      primary = λ k. absurd (omega arith);
      postfix = λ k. absurd (omega arith);
      unary = λ k. u;
      binop = λ k. unary-binop o e u;
      expr = binop-expr o e (unary-binop o e u);
    }

    of_postfix : (level e ≡ 14) → ReadsPostfix o e → Reads e
    of_postfix h f =
        let u = postfix-unary o e (λ p. written-is_not e p v (omega arith)) f in
        record {
          chain = λ k. absurd (omega arith);
          primary = λ k. absurd (omega arith);
          postfix = λ k. f;
          unary = λ k. u;
          binop = λ k. unary-binop o e u;
          expr = binop-expr o e (unary-binop o e u);
        }

    of_primary : 15 ≤ level e → (16 ≤ level e → ReadsChain o e) → ReadsPrimary o e → Reads e
    of_primary h c f =
        let u =
          postfix-unary o e (λ p. written-is_not e p v (omega arith)) (primary-postfix o e f) in
        record {
          chain = c;
          primary = λ k. f;
          postfix = λ k. primary-postfix o e f;
          unary = λ k. u;
          binop = λ k. unary-binop o e u;
          expr = binop-expr o e (unary-binop o e u);
        }

    of_chain : 16 ≤ level e → ReadsChain o e → Reads e
    of_chain h c = of_primary (omega arith) (λ k. c) (chain-primary o e c)

    of_single : level e ≡ 15 → ReadsPrimary o e → Reads e
    of_single h f = of_primary (omega arith) (λ k. absurd (omega arith)) f

  mutual
    unfolding level IsValid

    reads : (e : Phrase) → IsValid e → Reads e
    reads (single t) v = of_single (single t) v refl (single-ReadsPrimary o t v)
    reads (name t) v = of_chain (name t) v (omega arith) (name-ReadsChain o t v)
    reads (group a b e) v =
        of_single (group a b e) v refl (group-ReadsPrimary o a b e v.0 v.1 (reads e v.0).expr)
    reads (list a b es) v =
        of_single (list a b es) v refl (list-ReadsPrimary o a b es (reads_all es v))
    reads (prefix s t e) v =
        of_single (prefix s t e) v refl (prefix-ReadsPrimary o s t e ((reads e v.0).primary v.1))
    reads (call t a b es) v =
        of_chain (call t a b es) v (omega arith) (call-ReadsChain o t a b es v.0 (reads_all es v.1))
    reads (field arrow d n e) v =
        of_chain (field arrow d n e) v (omega arith)
          (field-ReadsChain o arrow d n e ((reads e v.0).chain v.1))
    reads (index a b e i) v =
        of_chain (index a b e i) v (omega arith)
          (index-ReadsChain o a b e i ((reads e v.0.0).chain v.0.1) (reads i v.1).expr)
    reads (slice a c b e i j) v = of_chain (slice a c b e i j) v (omega arith) (
        slice-ReadsChain o a c b e i j ((reads e v.0.0).chain v.0.1) (reads i v.1.0).expr
          (reads j v.1.1).expr)
    reads (post down t e) v =
        of_postfix (post down t e) v refl (post-ReadsPostfix o down t e ((reads e v.0).postfix v.1))
    reads (negation t e) v =
        of_unary (negation t e) v (omega arith)
          (negation-ReadsUnary o t e ((reads e v.0).unary v.1))
    reads (binary t prec op l r) v =
        let b = operator_bounds t.type t.value (prec, op) v.0 in
        of_binop (binary t prec op l r) v b.1 (
          binary-ReadsBinop o t prec op l r v.0 v.1.0.1 v.1.1.1
            ((reads l v.1.0.0).binop (omega arith)) ((reads r v.1.1.0).binop (omega arith)))
    reads (ternary t u c a b) v = record {
      chain = λ k. absurd (omega arith);
      primary = λ k. absurd (omega arith);
      postfix = λ k. absurd (omega arith);
      unary = λ k. absurd (omega arith);
      binop = λ k. absurd (omega arith);
      expr =
          ternary-ReadsExpr o t u c a b ((reads c v.0.0).binop v.0.1) (reads a v.1.0).expr
            (reads b v.1.1).expr;
    }

    reads_all : (es : Phrases) → AllValid es → ReadsArgs o es
    reads_all empty v = empty-ReadsArgs o
    reads_all (last e) v = last-ReadsArgs o e v (reads e v).expr
    reads_all (and_more e t es) v =
        and_more-ReadsArgs o e t es v.0 (reads e v.0).expr (reads_all es v.1)

-- parse_expr reads every valid phrase, whatever stands behind it that does not go on with an
-- expression: with any fuel from some amount on it answers the phrase's node and the state behind.
pub parse_expr-written :
    (o : Outer) (e : Phrase) (p : Parser)
    → IsValid e
    → Stops p
    → Ends (λ fuel. parse_expr o fuel (written e p)) (tree o e, p)
parse_expr-written o e p v stop = (reads o e v).expr p stop

-- Two valid phrases that are written with the same tokens, with no more of an expression behind
-- them, mean the same node and leave the same state.
pub written_unique :
    (o : Outer) (e f : Phrase) (p q : Parser)
    → IsValid e
    → IsValid f
    → Stops p
    → Stops q
    → written e p ≡ written f q
    → (tree o e ≡ tree o f) × (p ≡ q)
written_unique o e f p q ve vf sp sq same =
    let left = parse_expr-written o e p ve sp in
    let right : Ends (λ fuel. parse_expr o fuel (written e p)) (tree o f, q) =
      rw same (parse_expr-written o f q vf sq) in
    let both =
      Ends-unique (λ fuel. parse_expr o fuel (written e p)) (tree o e, p) (tree o f, q) left
        right in
    (cc, cc)
