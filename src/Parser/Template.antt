-- ===== src/Parser/Template.antt =====
-- `parse_fstring` of src/parser.c: a template string is cut into literal parts and expressions, and
-- the text of an expression goes through the lexer and `parse_expr`. The number is fuel.
use lu_language.Prelude.{
  ℕ, zero, suc, Bytes, Bool, true, false, ◌&&◌, Option, none, some, List, [], ◌∷◌, ◌++◌, ◌==◌, leb,
  if◌then◌else◌, length, codes,
}
use lu_language.Ast.{Node, node, Nodes, nil, cons, no_lhs, node_fstring, node_literal_str}
use lu_language.Lexer.Token.{Token}
use lu_language.Lexer.Tokenizer.{tokenize}
use lu_language.Parser.Cursor.{Parser, ◌>>=◌}
use lu_language.Parser.Nodes.{node_fields, node_new, one}
use lu_language.Parser.Calls.{Outer}
use lu_language.Parser.Expr.{parse_expr}

-- A literal part; `lit` is `litbuf` up to `litlen`.
abbrev pub literal_part : ℕ → Bytes → Node
literal_part line lit =
    node (node_fields node_literal_str line (some lit) none none (some (codes "lit"))) nil no_lhs

abbrev pub expr_part : ℕ → Node → Node
expr_part line e =
    node (node_fields node_literal_str line none none none (some (codes "expr"))) (one e) no_lhs

-- The literal that was read becomes a part, unless it is empty.
abbrev pub flush : ℕ → Bytes → Nodes → Nodes
flush line [] parts = parts
flush line (c ∷ lit) parts = cons (literal_part line (c ∷ lit)) parts

abbrev pub add_part : Node → Option (Nodes × ℕ) → Option (Nodes × ℕ)
add_part n none = none
add_part n (some (parts, errors)) = some (cons n parts, errors)

abbrev pub flushed : ℕ → Bytes → Option (Nodes × ℕ) → Option (Nodes × ℕ)
flushed line lit none = none
flushed line lit (some (parts, errors)) = some (flush line lit parts, errors)

-- The text up to the closing brace and the text behind it; `depth` more braces are open.
unfoldable pub close_brace : ℕ → Bytes → Bytes → Option (Bytes × Bytes)
close_brace depth inner [] = none
close_brace zero inner (c ∷ cs) =
    let deeper = close_brace 1 (inner ++ c ∷ []) cs in
    let same = close_brace zero (inner ++ c ∷ []) cs in
    if c == b'{' then deeper else if c == b'}' then some (inner, cs) else same
close_brace (suc depth) inner (c ∷ cs) =
    let deeper = close_brace (suc (suc depth)) (inner ++ c ∷ []) cs in
    let same = close_brace (suc depth) (inner ++ c ∷ []) cs in
    let closed = close_brace depth (inner ++ c ∷ []) cs in
    if c == b'{' then deeper else if c == b'}' then closed else same

-- The parser over the tokens of a text.
abbrev pub parser_of : ℕ → List Token → Option Parser
parser_of errors [] = none
parser_of errors (t ∷ ts) = some (record { token = t; later = ts; errors = errors })

-- An expression between braces, with the count of errors behind it.
unfoldable pub read_inner : Outer → ℕ → Bytes → ℕ → Option (Node × ℕ)
read_inner o fuel inner errors = tokenize inner >>= λ ts.
    parser_of errors ts >>= λ p. parse_expr o fuel p >>= λ (e, q). some (e, q.errors)

-- A brace, or another byte `c` that goes into the literal; `lit` is flushed when it is full.
abbrev pub store_byte : ℕ → Bytes → ℕ → (Bytes → Option (Nodes × ℕ)) → Option (Nodes × ℕ)
store_byte line lit c onward = elim (leb 1023 (length (lit ++ c ∷ []))) [
  | true ↦ add_part (literal_part line (lit ++ c ∷ [])) (onward [])
  | false ↦ onward (lit ++ c ∷ [])
]

-- The branches of the loop, at a byte and the text behind it.
pub data Piece : Type 0 where
  escaped : Bytes → Piece
  opened : Bytes → Bytes → Piece
  unclosed plain : Piece

abbrev pub opening : Option (Bytes × Bytes) → Piece
opening none = unclosed
opening (some (inner, rest)) = opened inner rest

abbrev pub doubled : ℕ → Bytes → Bool
doubled c [] = false
doubled c (d ∷ cs) = d == c

abbrev pub behind_next : Bytes → Bytes
behind_next [] = []
behind_next (d ∷ cs) = cs

unfoldable pub piece_at : ℕ → Bytes → Piece
unfolding close_brace
piece_at c cs =
    if (c == b'{' && doubled b'{' cs)
    then escaped (behind_next cs)
    else if (c == b'}' && doubled b'}' cs)
    then escaped (behind_next cs)
    else if c == b'{'
    then opening (close_brace zero [] cs)
    else plain

-- The parts that the text gives, with `lit` read before it.
unfoldable pub fstring_on : Outer → ℕ → ℕ → Bytes → Bytes → ℕ → Option (Nodes × ℕ)
unfolding piece_at read_inner
fstring_on o zero line lit cs errors = none
fstring_on o (suc k) line lit [] errors = some (flush line lit nil, errors)
fstring_on o (suc k) line lit (c ∷ cs) errors = elim (piece_at c cs) [
  | escaped rest ↦ store_byte line lit c (λ l. fstring_on o k line l rest errors)
  | opened inner rest ↦ flushed line lit (
      read_inner o k inner errors >>= λ (e, n).
      add_part (expr_part line e) (fstring_on o k line [] rest n))
  | unclosed ↦ flushed line lit (fstring_on o k line (c ∷ []) cs errors)
  | plain ↦ store_byte line lit c (λ l. fstring_on o k line l cs errors)
]

unfoldable pub parse_fstring : Outer → ℕ → Bytes → ℕ → ℕ → Option (Node × ℕ)
unfolding fstring_on
parse_fstring o fuel content line errors =
    fstring_on o fuel line [] content errors >>= λ (parts, n).
    some (node_new node_fstring line parts, n)
