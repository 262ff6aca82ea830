-- ===== src/Parser/Reads/Items.antt =====
-- What `parse_primary` of src/parser.c does at the phrases that it reads by itself, and the loop over
-- a list of expressions.
use lu_language.Prelude.{
  ℕ, suc, Bytes, Bool, true, false, some, ◌≡◌, refl, ◌∙◌, Option, if◌then◌else◌, codes, arith,
}
use lu_language.Lexer.Token.{
  Token, TokenType, tok_lparen, tok_rparen, tok_lbracket, tok_rbracket, tok_comma, tok_newline,
  tok_int_lit, tok_float_lit, tok_str_lit, tok_bool_lit, tok_ident, tok_cor, tok_block_id,
}
use lu_language.Ast.{Node, Nodes, nil, cons, node_expr_index}
use lu_language.Parser.Cursor.{Parser, cur_kind, same_kind, ◌>>=◌, match_tok}
use lu_language.Parser.Nodes.{node_op}
use lu_language.Parser.Calls.{Outer, Calls}
use lu_language.Parser.Forms.{Form, form_of, group_form, list_form, word_form}
use lu_language.Parser.Literals.{
  read_int, read_float, read_str, read_bool, read_null, read_cor_key, read_block_ref,
}
use lu_language.Parser.Primary.{
  read_args, read_primary, read_form, read_group, read_list, read_prefix, read_address,
}
use lu_language.Parser.Expr.{calls, operator_at}
use lu_language.Parser.Fuel.{Ends, Ends-some, Ends-suc, Ends-bind, Ends-call}
use lu_language.Parser.Phrase.{
  Phrase, Phrases, Prefix, written, written_all, push, tree, trees, IsValid, is_word, is_one_word,
  of_kind, single, group, list, prefix, word_node, prefix_node, prefix_kind, minus, bang, tilde,
  inc, dec, star, amp, deref, ref, empty, last, and_more,
}
use lu_language.Parser.Reads.Tokens.{skip_newlines-push}
use lu_language.Parser.Reads.First.{form_of-group, is_closer, written-is_closer}
use lu_language.Parser.Reads.Levels.{Stops, ReadsPrimary, ReadsExpr}

abbrev pub bracket : Bool → TokenType
bracket square = if square then tok_rbracket else tok_rparen

bracket-Stops :
    (square : Bool) (b : Token) (p : Parser) → Stops (push (of_kind (bracket square) b) p)
unfolding operator_at
bracket-Stops true b p = ((refl, refl), (refl, refl))
bracket-Stops false b p = ((refl, refl), (refl, refl))

bracket-comma :
    (square : Bool) (b : Token) (p : Parser)
    → match_tok tok_comma (push (of_kind (bracket square) b) p)
      ≡ push (of_kind (bracket square) b) p
unfolding match_tok
bracket-comma true b p = refl
bracket-comma false b p = refl

args_end :
    (r : Calls) (square : Bool) (b : Token) (p : Parser)
    → read_args r (bracket square) (push (of_kind (bracket square) b) p)
      ≡ some (nil, push (of_kind (bracket square) b) p)
unfolding read_args
args_end r true b p = refl
args_end r false b p = refl

-- What a round of the loop does behind an item.
abbrev args_onward : Calls → TokenType → Node → Parser → Option (Nodes × Parser)
args_onward r closing x u =
    r.args closing (match_tok tok_comma u) >>= λ (xs, w). some (cons x xs, w)

args_step :
    (r : Calls) (square : Bool) (q : Parser)
    → is_closer (cur_kind q) ≡ false
    → read_args r (bracket square) q ≡ (r.expr q >>= λ (x, u). args_onward r (bracket square) x u)
unfolding read_args
args_step r true q h = ground arith
args_step r false q h = ground arith

module _ (o : Outer) where
  -- One call of `parse_primary` before a token that is no end of a line.
  pub primary-form :
      (t : Token) (q : Parser) (form : Form) (k : ℕ)
      → same_kind t.type tok_newline ≡ false
      → form_of t.type (push t q) ≡ form
      → (calls o (suc k)).primary (push t q) ≡ read_form (calls o k) o form (push t q)
  unfolding calls
  primary-form t q form k h e = rw (read_primary, skip_newlines-push t q h, e)

  word_step :
      (r : Calls) (k : TokenType) (v : Bytes) (line col : ℕ) (q : Parser)
      → is_word k v ≡ true
      → let t : Token = record { type = k; value = v; line = line; col = col } in
        read_form r o (form_of k (push t q)) (push t q) ≡ some (word_node o line k v, q)
  unfolding read_form form_of word_form read_int read_float read_str read_bool read_null
      read_cor_key read_block_ref
  word_step r tok_int_lit v line col q h = refl
  word_step r tok_float_lit v line col q h = refl
  word_step r tok_str_lit v line col q h = ground arith
  word_step r tok_bool_lit v line col q h = refl
  word_step r tok_ident v line col q h = ground arith
  word_step r tok_cor v line col q h = refl
  word_step r tok_block_id v line col q h = refl
  word_step r _ v line col q h = cc

  single-newline :
      (k : TokenType) (v : Bytes) → is_word k v ≡ true → same_kind k tok_newline ≡ false
  single-newline tok_newline v h = cc
  single-newline _ v h = refl

  pub single-ReadsPrimary : (t : Token) → is_word t.type t.value ≡ true → ReadsPrimary o (single t)
  unfolding written tree
  single-ReadsPrimary t h p n =
      Ends-suc _ (λ k. some (word_node o t.line t.type t.value, p))
        (word_node o t.line t.type t.value, p)
        (λ k.
          primary-form t p _ k (single-newline t.type t.value h) refl
          ∙ word_step (calls o k) t.type t.value t.line t.col p h)
        (Ends-some _)

  pub group-ReadsPrimary :
      (a b : Token) (e : Phrase)
      → IsValid e
      → is_one_word e ≡ false
      → ReadsExpr o e
      → ReadsPrimary o (group a b e)
  unfolding written tree read_form read_group match_tok operator_at
  group-ReadsPrimary a b e v h reads p n =
      let q = push (of_kind tok_rparen b) p in
      Ends-call _ (λ k. (calls o k).expr (written e q))
        (λ k (x, u). some (x, match_tok tok_rparen u)) (tree o e, q) (tree o e, p)
        (λ k.
          primary-form (of_kind tok_lparen a) (written e q) group_form k refl
            (form_of-group (of_kind tok_lparen a) e q v h))
        (reads q ((refl, refl), (refl, refl))) (Ends-some _)

  -- The loop over a list reads the phrases up to the closing token.
  abbrev pub ReadsArgs : Phrases → Type 0
  ReadsArgs es =
      (square : Bool) (b : Token) (p : Parser)
      → let q = push (of_kind (bracket square) b) p in
        Ends (λ k. (calls o k).args (bracket square) (written_all es q)) (trees o es, q)

  pub empty-ReadsArgs : ReadsArgs empty
  unfolding written_all trees calls
  empty-ReadsArgs square b p =
      let q = push (of_kind (bracket square) b) p in
      Ends-suc _ (λ k. some (nil, q)) (nil, q) (λ k. args_end (calls o k) square b p) (Ends-some _)

  pub last-ReadsArgs : (e : Phrase) → IsValid e → ReadsExpr o e → ReadsArgs (last e)
  unfolding written_all trees calls
  last-ReadsArgs e v reads square b p =
      let q = push (of_kind (bracket square) b) p in
      Ends-call _ (λ k. (calls o k).expr (written e q))
        (λ k (x, u). args_onward (calls o k) (bracket square) x u) (tree o e, q)
        (cons (tree o e) nil, q)
        (λ k. args_step (calls o k) square (written e q) (written-is_closer e q v))
        (reads q (bracket-Stops square b p))
        (Ends-bind (λ k. (calls o k).args (bracket square) (match_tok tok_comma q))
          (λ k (xs, u). some (cons (tree o e) xs, u)) (nil, q) (cons (tree o e) nil, q)
          (rw (bracket-comma square b p) (empty-ReadsArgs square b p)) (Ends-some _))

  pub and_more-ReadsArgs :
      (e : Phrase) (t : Token) (es : Phrases)
      → IsValid e
      → ReadsExpr o e
      → ReadsArgs es
      → ReadsArgs (and_more e t es)
  unfolding written_all trees match_tok operator_at calls
  and_more-ReadsArgs e t es v reads ih square b p =
      let q = push (of_kind (bracket square) b) p in
      let u = push (of_kind tok_comma t) (written_all es q) in
      Ends-call _ (λ k. (calls o k).expr (written e u))
        (λ k (x, w). args_onward (calls o k) (bracket square) x w) (tree o e, u)
        (cons (tree o e) (trees o es), q)
        (λ k. args_step (calls o k) square (written e u) (written-is_closer e u v))
        (reads u ((refl, refl), (refl, refl)))
        (Ends-bind (λ k. (calls o k).args (bracket square) (written_all es q))
          (λ k (xs, w). some (cons (tree o e) xs, w)) (trees o es, q)
          (cons (tree o e) (trees o es), q) (ih square b p) (Ends-some _))

  pub list-ReadsPrimary : (a b : Token) (es : Phrases) → ReadsArgs es → ReadsPrimary o (list a b es)
  unfolding written tree read_form read_list match_tok form_of
  list-ReadsPrimary a b es reads p n =
      let q = push (of_kind tok_rbracket b) p in
      Ends-call _ (λ k. (calls o k).args tok_rbracket (written_all es q))
        (λ k (xs, u).
          some (node_op node_expr_index a.line (codes "list") xs, match_tok tok_rbracket u))
        (trees o es, q) (node_op node_expr_index a.line (codes "list") (trees o es), p)
        (λ k. primary-form (of_kind tok_lbracket a) (written_all es q) list_form k refl refl)
        (reads true b p) (Ends-some _)

  prefix_step :
      (s : Prefix) (t : Token) (q : Parser) (k : ℕ)
      → (calls o (suc k)).primary (push (of_kind (prefix_kind s) t) q)
        ≡ ((calls o k).primary q >>= λ (x, u). some (prefix_node s t.line t.value x, u))
  unfolding read_form form_of read_prefix read_address
  prefix_step minus t q k = primary-form (of_kind (prefix_kind minus) t) q _ k refl refl
  prefix_step bang t q k = primary-form (of_kind (prefix_kind bang) t) q _ k refl refl
  prefix_step tilde t q k = primary-form (of_kind (prefix_kind tilde) t) q _ k refl refl
  prefix_step inc t q k = primary-form (of_kind (prefix_kind inc) t) q _ k refl refl
  prefix_step dec t q k = primary-form (of_kind (prefix_kind dec) t) q _ k refl refl
  prefix_step star t q k = primary-form (of_kind (prefix_kind star) t) q _ k refl refl
  prefix_step amp t q k = primary-form (of_kind (prefix_kind amp) t) q _ k refl refl
  prefix_step deref t q k = primary-form (of_kind (prefix_kind deref) t) q _ k refl refl
  prefix_step ref t q k = primary-form (of_kind (prefix_kind ref) t) q _ k refl refl

  pub prefix-ReadsPrimary :
      (s : Prefix) (t : Token) (e : Phrase) → ReadsPrimary o e → ReadsPrimary o (prefix s t e)
  unfolding written tree
  prefix-ReadsPrimary s t e reads p n =
      Ends-call _ (λ k. (calls o k).primary (written e p))
        (λ k (x, u). some (prefix_node s t.line t.value x, u)) (tree o e, p)
        (prefix_node s t.line t.value (tree o e), p) (λ k. prefix_step s t (written e p) k)
        (reads p n) (Ends-some _)
