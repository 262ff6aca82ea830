-- ===== src/Parser/Nodes.antt =====
-- `node_new` of src/util.c and the nodes that the expression parser of src/parser.c makes with it.
use lu_language.Prelude.{ℕ, ℤ, pos, Bytes, Bool, false, Option, none, some}
use lu_language.Ast.{Node, node, Nodes, nil, cons, no_lhs, Payload, NodeKind}

-- `calloc` clears every field. Only a literal sets `ival`, `fval` or `bval`.
abbrev pub node_fields :
    NodeKind → ℕ → Option Bytes → Option Bytes → Option Bytes → Option Bytes → Payload
node_fields kind line sval op type_name annot = record {
  kind = kind;
  line = line;
  sval = sval;
  ival = pos 0;
  fval = 0;
  bval = false;
  block_n = pos 0;
  type_name = type_name;
  op = op;
  annot = annot;
}

abbrev pub node_new : NodeKind → ℕ → Nodes → Node
node_new kind line children = node (node_fields kind line none none none none) children no_lhs

abbrev pub node_text : NodeKind → ℕ → Bytes → Nodes → Node
node_text kind line sval children =
    node (node_fields kind line (some sval) none none none) children no_lhs

abbrev pub node_op : NodeKind → ℕ → Bytes → Nodes → Node
node_op kind line op children =
    node (node_fields kind line none (some op) none none) children no_lhs

abbrev pub literal_node : NodeKind → ℕ → Option Bytes → ℤ → ℕ → Bool → Node
literal_node kind line sval ival fval bval =
    node
      (record {
        kind = kind;
        line = line;
        sval = sval;
        ival = ival;
        fval = fval;
        bval = bval;
        block_n = pos 0;
        type_name = none;
        op = none;
        annot = none;
      })
      nil no_lhs

abbrev pub one : Node → Nodes
one n = cons n nil

abbrev pub two : Node → Node → Nodes
two a b = cons a (cons b nil)

abbrev pub line_of : Node → ℕ
line_of (node p children l) = p.line
