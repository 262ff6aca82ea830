-- ===== src/Parser/Literals.antt =====
-- The branches of `parse_primary`, src/parser.c, that read a single token.
use lu_language.Prelude.{
  ℕ, ℤ, pos, zero, suc, Bytes, ◌&&◌, ◌||◌, none, some, ◌++◌, ◌==◌, if◌then◌else◌, get_or, drop,
  streq, has_prefix, snprintf, codes, false,
}
use lu_language.Ast.{
  nil, node_literal_int, node_literal_float, node_literal_str, node_literal_bool, node_literal_cor,
  node_ident, Node,
}
use lu_language.Parser.Cursor.{Parser, cur_text, consume, step_to}
use lu_language.Parser.Nodes.{literal_node, node_text}
use lu_language.Parser.Calls.{Outer}

abbrev pub line_at : Parser → ℕ
line_at p = p.token.line

unfoldable pub int_value : Outer → Bytes → ℤ
int_value o v =
    let second = get_or v (suc zero) 0 in
    if get_or v zero 0 == b'0' && (second == b'b' || second == b'B')
    then o.strtoll (drop 2 v) 2
    else if get_or v zero 0 == b'0' && (second == b'o' || second == b'O')
    then o.strtoll (drop 2 v) 8
    else o.strtoll v 0

unfoldable pub read_int : Outer → Parser → Node × Parser
unfolding int_value
read_int o p =
    (literal_node node_literal_int (line_at p) none (int_value o (cur_text p)) 0 false, consume p)

unfoldable pub read_float : Outer → Parser → Node × Parser
read_float o p = (
  literal_node node_literal_float (line_at p) none (pos 0) (o.atof (cur_text p)) false,
  consume p,
)

-- The lexer marks a template string by `$f`.
unfoldable pub read_str : Outer → Parser → Node × Parser
read_str o p =
    let parsed = o.template_at (drop 2 (cur_text p)) (line_at p) p.errors in
    if has_prefix (codes "$f") (cur_text p)
    then (parsed.0, step_to p.token p.later parsed.1)
    else (node_text node_literal_str (line_at p) (cur_text p) nil, consume p)

-- `word` is the spelling of true: `true` for a literal of the lexer, `True` for a name.
unfoldable pub read_bool : Bytes → Parser → Node × Parser
read_bool single p = (
  literal_node node_literal_bool (line_at p) none (pos 0) 0 (streq (cur_text p) single),
  consume p,
)

-- `None` and `null`
unfoldable pub read_null : Parser → Node × Parser
read_null p =
    (literal_node node_literal_int (line_at p) (some (codes "null")) (pos 0) 0 false, consume p)

unfoldable pub read_cor_key : Parser → Node × Parser
read_cor_key p = (node_text node_literal_cor (line_at p) (cur_text p) nil, consume p)

unfoldable pub read_block_ref : Parser → Node × Parser
read_block_ref p =
    (node_text node_ident (line_at p) (snprintf 32 (codes "_q" ++ cur_text p)) nil, consume p)

unfoldable pub read_other : Parser → Node × Parser
read_other p = (node_text node_ident (line_at p) (cur_text p) nil, consume p)
