-- ===== src/Libraries/Check.antt =====
-- `check_library_node` and `check_library_usage` of src/libraries.c. `lu_error` ends the compiler,
-- so the result is the first error, if there is one.
pub mod Offence
pub mod Guards
pub mod Tree
use lu_language.Prelude.{
  ℕ, suc, ◌+◌, Bytes, Bool, true, false, not, ◌&&◌, ◌||◌, Option, none, some, ◌==◌, if◌then◌else◌,
  has_prefix, codes,
}
use lu_language.Ast.{
  Node, node, Nodes, nil, cons, Lhs, Payload, NodeKind, node_import, node_include, node_new_expr,
  node_expr_unop, node_func_call, node_ident, node_func_decl, node_class_decl, node_struct_decl,
  node_enum_decl, node_union_decl, payload, children_of, count,
}
use lu_language.Libraries.Api.{
  LibraryFunction, tensor_function, text_is, is_include, is_tensor_import, has_tensor_import,
  contains_tensor_type,
}

-- The messages, each with its line.
pub data Error : Type 0 where
  not_exact : ℕ → Error
  not_file_scope : ℕ → Error
  not_enabled : ℕ → Error
  private_api : ℕ → Option Bytes → Error
  reserved_function : ℕ → Option Bytes → Error
  reserved_type : ℕ → Error
  wrong_arity : ℕ → Option Bytes → ℕ → ℕ → Error

-- `if (test) lu_error(...)`, then what follows.
abbrev pub fail_if : Bool → Error → Option Error → Option Error
fail_if true e next = some e
fail_if false e next = next

abbrev pub then_check : Option Error → Option Error → Option Error
then_check (some e) next = some e
then_check none next = next

abbrev pub is_import_kind : NodeKind → Bool
is_import_kind node_import = true
is_import_kind node_include = true
is_import_kind _ = false

abbrev pub is_call_or_name : NodeKind → Bool
is_call_or_name node_func_call = true
is_call_or_name node_ident = true
is_call_or_name _ = false

abbrev pub is_call : NodeKind → Bool
is_call node_func_call = true
is_call _ = false

abbrev pub is_new : NodeKind → Bool
is_new node_new_expr = true
is_new _ = false

abbrev pub is_unop : NodeKind → Bool
is_unop node_expr_unop = true
is_unop _ = false

abbrev pub is_function : NodeKind → Bool
is_function node_func_decl = true
is_function _ = false

abbrev pub is_type_decl : NodeKind → Bool
is_type_decl node_class_decl = true
is_type_decl node_struct_decl = true
is_type_decl node_enum_decl = true
is_type_decl node_union_decl = true
is_type_decl _ = false

abbrev pub is_some : Option LibraryFunction → Bool
is_some none = false
is_some (some f) = true

unfoldable pub starts_text : Bytes → Option Bytes → Bool
starts_text p none = false
starts_text p (some v) = has_prefix p v

-- The tests, in the order of the source.
unfoldable pub misspelt_import : Payload → Bool
misspelt_import p =
    is_import_kind p.kind
    && (text_is "<tensor.h>" p.sval || text_is "\"tensor.h\"" p.sval)
    && not (is_tensor_import p)

unfoldable pub type_use : Payload → Bool
type_use p =
    contains_tensor_type p.type_name
    || is_new p.kind && contains_tensor_type p.sval
    || is_unop p.kind && starts_text (codes "(cast:") p.op && contains_tensor_type p.op

unfoldable pub api_use : Payload → Bool
api_use p = is_call_or_name p.kind && is_some (tensor_function p.sval)

unfoldable pub private_use : Payload → Bool
private_use p = is_call_or_name p.kind && starts_text (codes "lu_tensor_") p.sval

unfoldable pub redefines_api : Payload → Bool
redefines_api p = is_function p.kind && is_some (tensor_function p.sval)

unfoldable pub redefines_type : Payload → Bool
redefines_type p = is_type_decl p.kind && text_is "Tensor" p.sval

-- `fn && node->children.count != fn->arity`
abbrev pub arity_error : Payload → ℕ → Option LibraryFunction → Option Error
arity_error p n none = none
arity_error p n (some f) = if n == f.arity then none else some (wrong_arity p.line p.sval f.arity n)

unfoldable pub check_arity : Bool → Payload → ℕ → Option Error
check_arity enabled p n =
    if enabled && is_call p.kind then arity_error p n (tensor_function p.sval) else none

-- The checks on one node, which has `n` children.
unfoldable pub check_payload : Bool → ℕ → Payload → ℕ → Option Error
check_payload enabled depth p n = fail_if (misspelt_import p) (not_exact p.line) (
    fail_if (is_tensor_import p && not (depth == 1)) (not_file_scope p.line) (
      fail_if (not enabled && (type_use p || api_use p)) (not_enabled p.line) (
        fail_if (private_use p) (private_api p.line p.sval) (
          fail_if (redefines_api p) (reserved_function p.line p.sval)
            (fail_if (redefines_type p) (reserved_type p.line) (check_arity enabled p n))))))

-- The node, then its children from the first to the last.
unfoldable mutual
  pub check_library_node : Node → Bool → ℕ → Option Error
  check_library_node (node p children l) enabled depth =
      then_check (check_payload enabled depth p (count children))
        (check_children children enabled (depth + 1))

  pub check_children : Nodes → Bool → ℕ → Option Error
  check_children nil enabled depth = none
  check_children (cons n ns) enabled depth =
      then_check (check_library_node n enabled depth) (check_children ns enabled depth)

unfoldable pub check_library_usage : Node → Option Error
check_library_usage root = check_library_node root (has_tensor_import (children_of root)) 0
