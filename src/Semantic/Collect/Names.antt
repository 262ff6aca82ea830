-- ===== src/Semantic/Collect/Names.antt =====
-- The parts of `first_pass` of src/semantic.c for classes, functions, channels, constants and enums.
use lu_language.Prelude.{
  Bytes, true, false, ◌++◌, Option, none, some, if◌then◌else◌, streq, snprintf, codes,
}
use lu_language.Ast.{
  Nodes, nil, cons, Payload, NodeKind, node_method_decl, node_constructor, node_destructor,
  node_op_overload, node_chan_decl, node_def_const, node_enum_decl, payload,
}
use lu_language.Semantic.Symbols.{SymTable, text_or}
use lu_language.Semantic.Collect.Block.{
  declare, declare_function, declare_constant, semantic_is_class_like, declares_function,
}

abbrev pub mangle : Bytes → Bytes
mangle op =
    if streq op (codes "+")
    then codes "add"
    else if streq op (codes "-")
    then codes "sub"
    else if streq op (codes "*")
    then codes "mul"
    else if streq op (codes "/")
    then codes "div"
    else if streq op (codes "%")
    then codes "mod"
    else if streq op (codes "==")
    then codes "eq"
    else if streq op (codes "!=")
    then codes "neq"
    else if streq op (codes "<")
    then codes "lt"
    else if streq op (codes ">")
    then codes "gt"
    else if streq op (codes "<=")
    then codes "le"
    else if streq op (codes ">=")
    then codes "ge"
    else codes "op"

unfoldable pub semantic_op_mangle : Option Bytes → Bytes
semantic_op_mangle none = codes "op"
semantic_op_mangle (some op) = mangle op

-- `snprintf` into `char fname[256]`.
abbrev pub joined : Bytes → Bytes → Bytes
joined a b = snprintf 256 (a ++ b)

unfoldable pub declare_member : Bytes → SymTable → NodeKind → Payload → SymTable
declare_member cn st node_method_decl m =
    declare_function st (joined cn (codes "_" ++ text_or "method" m.sval))
      (text_or "void" m.type_name) m.line
declare_member cn st node_constructor m =
    declare_function st (joined cn (codes "_init")) (codes "void") m.line
declare_member cn st node_destructor m =
    declare_function st (joined cn (codes "_deinit")) (codes "void") m.line
declare_member cn st node_op_overload m =
    declare_function st (joined cn (codes "_op_" ++ semantic_op_mangle m.op))
      (text_or "void" m.type_name) m.line
declare_member cn st _ m = st

unfoldable pub declare_members : Bytes → SymTable → Nodes → SymTable
declare_members cn st nil = st
declare_members cn st (cons m ms) =
    declare_members cn (declare_member cn st (payload m).kind (payload m)) ms

unfoldable pub declare_class : Payload → Nodes → SymTable → SymTable
declare_class p cs st =
    if semantic_is_class_like p.kind
    then declare_members (text_or "LuClass" p.sval)
        (declare_constant st (text_or "LuClass" p.sval) (codes "type") p.line) cs
    else st

abbrev pub function_named : Payload → SymTable → Option Bytes → SymTable
function_named p st none = st
function_named p st (some name) = declare_function st name (text_or "void" p.type_name) p.line

unfoldable pub declare_func : Payload → SymTable → SymTable
declare_func p st = if declares_function p.kind then function_named p st p.sval else st

-- Channels and constants.
unfoldable pub declare_simple : NodeKind → Payload → Option Bytes → SymTable → SymTable
declare_simple node_chan_decl p (some name) st =
    declare st name (codes "chan") true false false p.line
declare_simple node_def_const p (some name) st = declare_constant st name (codes "int") p.line
declare_simple _ p _ st = st

abbrev pub declare_value : Bytes → SymTable → Payload → Option Bytes → SymTable
declare_value enum st m none = st
declare_value enum st m (some name) =
    declare_constant (declare_constant st name enum m.line) (joined enum (codes "_" ++ name))
      (codes "int") m.line

unfoldable pub declare_values : Bytes → SymTable → Nodes → SymTable
declare_values enum st nil = st
declare_values enum st (cons m ms) =
    declare_values enum (declare_value enum st (payload m) (payload m).sval) ms

unfoldable pub declare_enum : NodeKind → Payload → Option Bytes → Nodes → SymTable → SymTable
declare_enum node_enum_decl p (some name) cs st =
    declare_values name (declare_constant st name (codes "type") p.line) cs
declare_enum _ p _ cs st = st
