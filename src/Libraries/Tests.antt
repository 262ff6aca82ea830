-- ===== src/Libraries/Tests.antt =====
-- The tensor checks on a small program.
use lu_language.Prelude.{
  ℕ, pos, Bytes, true, false, Option, none, some, isalnum, isalpha, isdigit, streq, has_prefix,
  codes, ◌≡◌, ◌↔◌, refl,
}
use lu_language.Ast.{
  Node, node, Nodes, nil, cons, no_lhs, Payload, NodeKind, node_program, node_include,
  node_func_call, node_literal_int, children_of,
}
use lu_language.Libraries.Api.{
  find_function, tensor_function, tensor_functions, text_is, is_tensor_import, has_tensor_import,
  is_name_byte, tensor_here, contains_on, contains_tensor_type,
}
use lu_language.Libraries.Api.Occurrence.{Occurs, contains_tensor_type_iff}
use lu_language.Libraries.Check.{
  wrong_arity, not_enabled, misspelt_import, starts_text, type_use, api_use, private_use,
  redefines_api, redefines_type, check_arity, check_payload, check_library_node,
  check_library_usage,
}
use lu_language.Libraries.Check.Tree.{LawfulTree, check_library_usage_iff}

abbrev plain : NodeKind → ℕ → Option Bytes → Payload
plain kind line sval = record {
  kind = kind;
  line = line;
  sval = sval;
  ival = pos 0;
  fval = 0;
  bval = false;
  block_n = pos 0;
  type_name = none;
  op = none;
  annot = none;
}

abbrev import : Node
import = node (plain node_include 1 (some (codes "<tensor.h>"))) nil no_lhs

abbrev number_node : Node
number_node = node (plain node_literal_int 2 none) nil no_lhs

abbrev eye : Nodes → Node
eye args = node (plain node_func_call 2 (some (codes "tensor_eye"))) args no_lhs

abbrev program : Nodes → Node
program ns = node (plain node_program 0 none) ns no_lhs

abbrev good : Node
good = program (cons import (cons (eye (cons number_node nil)) nil))

test_good : check_library_usage good ≡ none
unfolding check_library_usage check_library_node check_payload has_tensor_import is_tensor_import
    text_is misspelt_import starts_text type_use api_use private_use redefines_api redefines_type
    check_arity tensor_function find_function tensor_functions contains_tensor_type contains_on
    tensor_here is_name_byte isalnum streq has_prefix
test_good = refl

test_arity :
    check_library_usage (program (cons import (cons (eye nil) nil)))
    ≡ some (wrong_arity 2 (some (codes "tensor_eye")) 1 0)
unfolding check_library_usage check_library_node check_payload has_tensor_import is_tensor_import
    text_is misspelt_import starts_text type_use api_use private_use redefines_api redefines_type
    check_arity tensor_function find_function tensor_functions contains_tensor_type contains_on
    tensor_here is_name_byte isalnum streq has_prefix
test_arity = refl

test_not_enabled : check_library_usage (program (cons (eye nil) nil)) ≡ some (not_enabled 2)
unfolding check_library_usage check_library_node check_payload has_tensor_import is_tensor_import
    text_is misspelt_import starts_text type_use api_use private_use redefines_api redefines_type
    check_arity tensor_function find_function tensor_functions contains_tensor_type contains_on
    tensor_here is_name_byte isalnum streq has_prefix
test_not_enabled = refl

test_whole_word :
    (contains_tensor_type (some (codes "Vector<Tensor>")) ≡ true)
    × (contains_tensor_type (some (codes "MyTensor Tensors")) ≡ false)
unfolding contains_tensor_type contains_on tensor_here is_name_byte isalnum isalpha isdigit
    has_prefix
test_whole_word = (refl, refl)

contains_tensor_type_iff_example :
    (contains_tensor_type (some (codes "Vector<Tensor>")) ≡ true)
    ↔ Occurs true (codes "Vector<Tensor>")
contains_tensor_type_iff_example = contains_tensor_type_iff (codes "Vector<Tensor>")

check_library_usage_iff_example :
    (check_library_usage good ≡ none) ↔ LawfulTree (has_tensor_import (children_of good)) 0 good
check_library_usage_iff_example = check_library_usage_iff good
