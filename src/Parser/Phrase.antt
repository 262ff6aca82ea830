-- ===== src/Parser/Phrase.antt =====
-- The expressions that the parser of src/parser.c reads, as trees of tokens: how each is written and
-- which node it means. This is no code of the repository.
use lu_language.Prelude.{
  ℕ, suc, ◌≤◌, pos, Bytes, Bool, true, false, not, ◌&&◌, ◌||◌, none, some, ◌≡◌, ◌++◌, ◌∷◌, streq,
  has_prefix, snprintf, codes, if◌then◌else◌,
}
use lu_language.Lexer.Token.{
  Token, TokenType, tok_ident, tok_int_lit, tok_float_lit, tok_str_lit, tok_bool_lit, tok_cor,
  tok_block_id, tok_lparen, tok_rparen, tok_lbracket, tok_rbracket, tok_comma, tok_question,
  tok_colon, tok_dot, tok_ptr_access, tok_inc, tok_dec, tok_bang, tok_minus, tok_tilde, tok_star,
  tok_amp, tok_deref, tok_ref,
}
use lu_language.Ast.{
  Node, Nodes, nil, cons, node_literal_int, node_literal_float, node_literal_str, node_literal_bool,
  node_literal_cor, node_ident, node_func_call, node_expr_unop, node_expr_index, node_expr_deref,
  node_expr_ref, node_expr_binop, node_expr_ternary,
}
use lu_language.Parser.Cursor.{Parser}
use lu_language.Parser.Nodes.{literal_node, node_new, node_text, node_op, one, two, line_of}
use lu_language.Parser.Types.{is_type_tok}
use lu_language.Parser.Calls.{Outer}
use lu_language.Parser.Literals.{int_value}
use lu_language.Parser.Names.{field_node, index_node, slice_node}
use lu_language.Parser.Expr.{operator_at}

pub data Prefix : Type 0 where
  minus bang tilde inc dec star amp deref ref : Prefix

-- Every phrase has its tokens; of a punctuation mark the kind is fixed.
mutual
  pub data Phrase : Type 0 where
    single : Token → Phrase
    name : Token → Phrase
    group : Token → Token → Phrase → Phrase
    list : Token → Token → Phrases → Phrase
    prefix : Prefix → Token → Phrase → Phrase
    call : Token → Token → Token → Phrases → Phrase
    field : Bool → Token → Token → Phrase → Phrase
    index : Token → Token → Phrase → Phrase → Phrase
    slice : Token → Token → Token → Phrase → Phrase → Phrase → Phrase
    post : Bool → Token → Phrase → Phrase
    negation : Token → Phrase → Phrase
    binary : Token → ℕ → Bytes → Phrase → Phrase → Phrase
    ternary : Token → Token → Phrase → Phrase → Phrase → Phrase

  -- Phrases with commas between them, and one behind the last if wanted.
  pub data Phrases : Type 0 where
    empty : Phrases
    last : Phrase → Phrases
    and_more : Phrase → Token → Phrases → Phrases

abbrev pub of_kind : TokenType → Token → Token
of_kind k t = record { type = k; value = t.value; line = t.line; col = t.col }

abbrev pub of_word : Bytes → Token → Token
of_word v t = record { type = tok_ident; value = v; line = t.line; col = t.col }

abbrev pub prefix_kind : Prefix → TokenType
prefix_kind minus = tok_minus
prefix_kind bang = tok_bang
prefix_kind tilde = tok_tilde
prefix_kind inc = tok_inc
prefix_kind dec = tok_dec
prefix_kind star = tok_star
prefix_kind amp = tok_amp
prefix_kind deref = tok_deref
prefix_kind ref = tok_ref

-- The state in which a token, a phrase or phrases stand before what a state has to read.
abbrev pub push : Token → Parser → Parser
push t p = record { token = t; later = p.token ∷ p.later; errors = p.errors }

abbrev pub access_kind : Bool → TokenType
access_kind arrow = if arrow then tok_ptr_access else tok_dot

abbrev pub step_kind : Bool → TokenType
step_kind down = if down then tok_dec else tok_inc

unfoldable mutual
  pub written : Phrase → Parser → Parser
  written (single t) p = push t p
  written (name t) p = push t p
  written (group a b e) p = push (of_kind tok_lparen a) (written e (push (of_kind tok_rparen b) p))
  written (list a b es) p =
      push (of_kind tok_lbracket a) (written_all es (push (of_kind tok_rbracket b) p))
  written (prefix s t e) p = push (of_kind (prefix_kind s) t) (written e p)
  written (call t a b es) p =
      push t (push (of_kind tok_lparen a) (written_all es (push (of_kind tok_rparen b) p)))
  written (field arrow d n e) p = written e (push (of_kind (access_kind arrow) d) (push n p))
  written (index a b e i) p =
      written e (push (of_kind tok_lbracket a) (written i (push (of_kind tok_rbracket b) p)))
  written (slice a c b e i j) p = written e (
      push (of_kind tok_lbracket a)
        (written i (push (of_kind tok_colon c) (written j (push (of_kind tok_rbracket b) p)))))
  written (post down t e) p = written e (push (of_kind (step_kind down) t) p)
  written (negation t e) p = push (of_word (codes "not") t) (written e p)
  written (binary t prec op l r) p = written l (push t (written r p))
  written (ternary t u c a b) p =
      written c
        (push (of_kind tok_question t) (written a (push (of_kind tok_colon u) (written b p))))

  pub written_all : Phrases → Parser → Parser
  written_all empty p = p
  written_all (last e) p = written e p
  written_all (and_more e t es) p = written e (push (of_kind tok_comma t) (written_all es p))

-- The line of the first token, which every node of a name's accesses has.
abbrev pub start_line : Phrase → ℕ
start_line (single t) = t.line
start_line (name t) = t.line
start_line (group a b e) = a.line
start_line (list a b es) = a.line
start_line (prefix s t e) = t.line
start_line (call t a b es) = t.line
start_line (field arrow d n e) = start_line e
start_line (index a b e i) = start_line e
start_line (slice a c b e i j) = start_line e
start_line (post down t e) = start_line e
start_line (negation t e) = t.line
start_line (binary t prec op l r) = start_line l
start_line (ternary t u c a b) = start_line c

-- The words and literals of one token.
abbrev pub is_null_word : Bytes → Bool
is_null_word v = streq v (codes "None") || streq v (codes "null")

abbrev pub is_bool_word : Bytes → Bool
is_bool_word v = streq v (codes "True") || streq v (codes "False")

abbrev pub is_word : TokenType → Bytes → Bool
is_word tok_int_lit v = true
is_word tok_float_lit v = true
is_word tok_str_lit v = not (has_prefix (codes "$f") v)
is_word tok_bool_lit v = true
is_word tok_ident v = is_bool_word v || is_null_word v
is_word tok_cor v = true
is_word tok_block_id v = true
is_word _ v = false

-- A name is no other word; `fn` and `sizeof` are names where no parenthesis follows them.
abbrev pub is_name : TokenType → Bytes → Bool
is_name tok_ident v =
    not (is_bool_word v || is_null_word v)
    && not (streq v (codes "new") || streq v (codes "not"))
    && not (streq v (codes "sizeof") || streq v (codes "fn"))
is_name k v = is_type_tok k

abbrev pub word_node : Outer → ℕ → TokenType → Bytes → Node
word_node o line tok_int_lit v = literal_node node_literal_int line none (int_value o v) 0 false
word_node o line tok_float_lit v =
    literal_node node_literal_float line none (pos 0) (o.atof v) false
word_node o line tok_bool_lit v =
    literal_node node_literal_bool line none (pos 0) 0 (streq v (codes "true"))
word_node o line tok_ident v =
    if is_bool_word v
    then literal_node node_literal_bool line none (pos 0) 0 (streq v (codes "True"))
    else literal_node node_literal_int line (some (codes "null")) (pos 0) 0 false
word_node o line tok_cor v = node_text node_literal_cor line v nil
word_node o line tok_block_id v = node_text node_ident line (snprintf 32 (codes "_q" ++ v)) nil
word_node o line _ v = node_text node_literal_str line v nil

abbrev pub prefix_node : Prefix → ℕ → Bytes → Node → Node
prefix_node star line v n = node_new node_expr_deref line (one n)
prefix_node deref line v n = node_new node_expr_deref line (one n)
prefix_node amp line v n = node_new node_expr_ref line (one n)
prefix_node ref line v n = node_new node_expr_ref line (one n)
prefix_node s line v n = node_op node_expr_unop line v (one n)

-- The node that a phrase means.
unfoldable mutual
  pub tree : Outer → Phrase → Node
  tree o (single t) = word_node o t.line t.type t.value
  tree o (name t) = node_text node_ident t.line t.value nil
  tree o (group a b e) = tree o e
  tree o (list a b es) = node_op node_expr_index a.line (codes "list") (trees o es)
  tree o (prefix s t e) = prefix_node s t.line t.value (tree o e)
  tree o (call t a b es) = node_text node_func_call t.line t.value (trees o es)
  tree o (field arrow d n e) =
      field_node (start_line e) (if arrow then codes "->" else codes ".") n.value (tree o e)
  tree o (index a b e i) = index_node (start_line e) (tree o e) (tree o i)
  tree o (slice a c b e i j) = slice_node (start_line e) (tree o e) (tree o i) (tree o j)
  tree o (post down t e) =
      node_op node_expr_unop t.line (snprintf 16 (t.value ++ codes "_post")) (one (tree o e))
  tree o (negation t e) = node_op node_expr_unop t.line (codes "!") (one (tree o e))
  tree o (binary t prec op l r) = node_op node_expr_binop t.line op (two (tree o l) (tree o r))
  tree o (ternary t u c a b) =
      node_new node_expr_ternary (line_of (tree o c)) (cons (tree o c) (two (tree o a) (tree o b)))

  pub trees : Outer → Phrases → Nodes
  trees o empty = nil
  trees o (last e) = cons (tree o e) nil
  trees o (and_more e t es) = cons (tree o e) (trees o es)

-- How tightly a phrase holds together: a conditional 0, a binary operator its precedence, `not` 13,
-- `++` and `--` behind 14, what `parse_primary` reads 15, and what an access can follow 16.
unfoldable pub level : Phrase → ℕ
level (name t) = 16
level (call t a b es) = 16
level (field arrow d n e) = 16
level (index a b e i) = 16
level (slice a c b e i j) = 16
level (post down t e) = 14
level (negation t e) = 13
level (binary t prec op l r) = prec
level (ternary t u c a b) = 0
level _ = 15

-- A parenthesis around one word would be a cast.
abbrev pub is_one_word : Phrase → Bool
is_one_word (name t) = true
is_one_word (single t) = is_type_tok t.type
is_one_word _ = false

-- Every operand holds together at least as tightly as its operator, the right one more tightly.
unfoldable mutual
  pub IsValid : Phrase → Type 0
  IsValid (single t) = is_word t.type t.value ≡ true
  IsValid (name t) = is_name t.type t.value ≡ true
  IsValid (group a b e) = IsValid e × (is_one_word e ≡ false)
  IsValid (list a b es) = AllValid es
  IsValid (prefix s t e) = IsValid e × (15 ≤ level e)
  IsValid (call t a b es) = (is_name t.type t.value ≡ true) × AllValid es
  IsValid (field arrow d n e) = IsValid e × (16 ≤ level e)
  IsValid (index a b e i) = (IsValid e × (16 ≤ level e)) × IsValid i
  IsValid (slice a c b e i j) = (IsValid e × (16 ≤ level e)) × (IsValid i × IsValid j)
  IsValid (post down t e) = IsValid e × (14 ≤ level e)
  IsValid (negation t e) = IsValid e × (13 ≤ level e)
  IsValid (binary t prec op l r) =
      (operator_at t.type t.value ≡ some (prec, op))
      × ((IsValid l × (prec ≤ level l)) × (IsValid r × (suc prec ≤ level r)))
  IsValid (ternary t u c a b) = (IsValid c × (1 ≤ level c)) × (IsValid a × IsValid b)

  pub AllValid : Phrases → Type 0
  AllValid empty = Unit
  AllValid (last e) = IsValid e
  AllValid (and_more e t es) = IsValid e × AllValid es
