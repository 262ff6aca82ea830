-- ===== src/Parser/Reads/Access.antt =====
-- What the branch for names of `parse_primary`, src/parser.c, does: calls, fields, indices, slices.
use lu_language.Prelude.{ℕ, suc, Bool, true, false, ◌≡◌, refl, ◌∙◌, codes, if◌then◌else◌}
use lu_language.Lexer.Token.{Token, tok_lparen, tok_rparen, tok_lbracket, tok_rbracket, tok_colon}
use lu_language.Ast.{Node, nil, node_ident, node_func_call}
use lu_language.Parser.Cursor.{Parser, same_kind, match_tok}
use lu_language.Parser.Nodes.{node_text}
use lu_language.Parser.Calls.{Outer}
use lu_language.Parser.Forms.{name_form}
use lu_language.Parser.Names.{
  read_name, read_chain, read_field, read_index, read_behind, field_node, slice_node,
}
use lu_language.Parser.Primary.{read_form}
use lu_language.Parser.Expr.{calls, operator_at}
use lu_language.Parser.Fuel.{Ends-suc, Ends-bind, Ends-call}
use lu_language.Parser.Phrase.{
  Phrase, Phrases, written, written_all, push, tree, trees, start_line, is_name, of_kind,
  access_kind, name, call, field, index, slice,
}
use lu_language.Parser.Reads.Tokens.{form_of-name, name-newline}
use lu_language.Parser.Reads.Levels.{ReadsChain, ReadsExpr}
use lu_language.Parser.Reads.Items.{primary-form, ReadsArgs}

module _ (o : Outer) where
  primary-name :
      (t : Token) (q : Parser) (k : ℕ)
      → is_name t.type t.value ≡ true
      → (calls o (suc k)).primary (push t q) ≡ read_name (calls o k) (push t q)
  unfolding read_form
  primary-name t q k h =
      primary-form o t q name_form k (name-newline t.type t.value h)
        (form_of-name t.type (push t q) h)

  pub name-ReadsChain : (t : Token) → is_name t.type t.value ≡ true → ReadsChain o (name t)
  unfolding written tree read_name calls
  name-ReadsChain t h p res n ends =
      Ends-suc _ (λ k. (calls o k).chain t.line (node_text node_ident t.line t.value nil) p) res
        (λ k. primary-name t p k h ∙ rw (n, read_name)) ends

  pub call-ReadsChain :
      (t a b : Token) (es : Phrases)
      → is_name t.type t.value ≡ true
      → ReadsArgs o es
      → ReadsChain o (call t a b es)
  unfolding written tree match_tok read_name calls
  call-ReadsChain t a b es h reads p res n ends =
      let q = push (of_kind tok_rparen b) p in
      Ends-call _ (λ k. (calls o k).args tok_rparen (written_all es q))
        (λ k (xs, u).
          (calls o k).chain t.line (node_text node_func_call t.line t.value xs)
            (match_tok tok_rparen u))
        (trees o es, q) res
        (λ k. primary-name t (push (of_kind tok_lparen a) (written_all es q)) k h) (reads false b p)
        ends

  field_step :
      (arrow : Bool) (d n : Token) (line : ℕ) (x : Node) (p : Parser) (k : ℕ)
      → (calls o (suc k)).chain line x (push (of_kind (access_kind arrow) d) (push n p))
        ≡ (calls o k).chain line
            (field_node line (if arrow then codes "->" else codes ".") n.value x)
            p
  unfolding calls read_chain read_field
  field_step true d n line x p k = refl
  field_step false d n line x p k = refl

  access-lparen : (arrow : Bool) → same_kind (access_kind arrow) tok_lparen ≡ false
  access-lparen true = refl
  access-lparen false = refl

  pub field-ReadsChain :
      (arrow : Bool) (d n : Token) (e : Phrase) → ReadsChain o e → ReadsChain o (field arrow d n e)
  unfolding written tree
  field-ReadsChain arrow d n e reads p res h ends =
      reads (push (of_kind (access_kind arrow) d) (push n p)) res (access-lparen arrow) (
        Ends-suc _ (λ k. (calls o k).chain (start_line e) (tree o (field arrow d n e)) p) res
          (λ k. field_step arrow d n (start_line e) (tree o e) p k) ends)

  pub index-ReadsChain :
      (a b : Token) (e i : Phrase) → ReadsChain o e → ReadsExpr o i → ReadsChain o (index a b e i)
  unfolding written tree calls read_chain read_index read_behind operator_at match_tok
  index-ReadsChain a b e i reads inner p res h ends =
      let q = push (of_kind tok_rbracket b) p in
      let line = start_line e in
      reads (push (of_kind tok_lbracket a) (written i q)) res refl (
        Ends-call _ (λ k. (calls o k).expr (written i q))
          (λ k (x, u). read_behind (calls o k) line (tree o e) x u) (tree o i, q) res (λ k. refl)
          (inner q ((refl, refl), (refl, refl))) ends)

  pub slice-ReadsChain :
      (a c b : Token) (e i j : Phrase)
      → ReadsChain o e
      → ReadsExpr o i
      → ReadsExpr o j
      → ReadsChain o (slice a c b e i j)
  unfolding written tree calls read_chain read_index read_behind operator_at match_tok
  slice-ReadsChain a c b e i j reads start stop p res h ends =
      let q = push (of_kind tok_rbracket b) p in
      let u = push (of_kind tok_colon c) (written j q) in
      let line = start_line e in
      reads (push (of_kind tok_lbracket a) (written i u)) res refl (
        Ends-call _ (λ k. (calls o k).expr (written i u))
          (λ k (x, w). read_behind (calls o k) line (tree o e) x w) (tree o i, u) res (λ k. refl)
          (start u ((refl, refl), (refl, refl)))
          (Ends-bind (λ k. (calls o k).expr (written j q))
            (λ k (y, w).
              (calls o k).chain line (slice_node line (tree o e) (tree o i) y)
                (match_tok tok_rbracket w))
            (tree o j, q) res (stop q ((refl, refl), (refl, refl))) ends))
