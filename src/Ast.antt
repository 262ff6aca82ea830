-- ===== src/Ast.antt =====
-- The syntax tree, `NodeKind` and `ASTNode` of src/lu.h.
use lu_language.Prelude.{ℕ, ℤ, Bytes, Bool, Option, suc}

pub data NodeKind : Type 0 where
  node_program node_lang_decl node_import node_mode node_def_const node_def_config : NodeKind
  node_define node_include node_block node_if node_loop node_loop_while node_loop_each : NodeKind
  node_pr node_to node_set node_var_decl node_func_decl node_func_call node_return : NodeKind
  node_linref node_user_decl node_server_decl node_send node_recv node_bcast node_route : NodeKind
  node_inq node_ptr_decl node_alloc node_free node_memset node_memcpy node_try node_throw : NodeKind
  node_struct_decl node_enum_decl node_union_decl node_tuple_decl node_namespace : NodeKind
  node_module node_async_func node_await node_spawn node_chan_decl node_chan_send : NodeKind
  node_chan_recv node_select node_event node_on node_emit node_log node_assert node_annot : NodeKind
  node_opt node_expr_binop node_expr_unop node_expr_ternary node_expr_index : NodeKind
  node_expr_field node_expr_deref node_expr_ref node_literal_int node_literal_float : NodeKind
  node_literal_str node_literal_bool node_literal_ip node_literal_cor node_ident node_cr : NodeKind
  node_dam node_onl node_func_call_game node_exp node_cl node_class_decl node_class_body : NodeKind
  node_method_decl node_inherit node_new_expr node_delete_expr node_template_decl : NodeKind
  node_template_inst node_override_decl node_virtual_decl node_op_overload : NodeKind
  node_destructor node_constructor node_interface_decl node_impl_decl node_this_expr : NodeKind
  node_super_expr node_obj_decl node_cl_call node_dam_call node_onl_call node_snd_goto : NodeKind
  node_fstring node_match node_defer node_asm_stmt : NodeKind

-- The fields of a node but its links. A null `char *` is `none`; `fval` is the bit pattern of the
-- double.
pub record Payload : Type 0 where
  pub kind : NodeKind
  pub line : ℕ
  pub sval : Option Bytes
  pub ival : ℤ
  pub fval : ℕ
  pub bval : Bool
  pub block_n : ℤ
  pub type_name : Option Bytes
  pub op : Option Bytes
  pub annot : Option Bytes

-- A node with its children and its left-hand side, which only a `Set` has.
mutual
  pub data Node : Type 0 where
    node : Payload → Nodes → Lhs → Node

  pub data Nodes : Type 0 where
    nil : Nodes
    cons : Node → Nodes → Nodes

  pub data Lhs : Type 0 where
    no_lhs : Lhs
    lhs : Node → Lhs

abbrev pub payload : Node → Payload
payload (node p children l) = p

abbrev pub children_of : Node → Nodes
children_of (node p children l) = children

abbrev pub count : Nodes → ℕ
count nil = 0
count (cons n ns) = suc (count ns)
