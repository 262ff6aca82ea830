-- ===== src/Semantic/Collect/Tests.antt =====
-- The first pass on a small program.
use lu_language.Prelude.{
  ℕ, ◌≤◌, pos, Bytes, true, false, List, [], ◌∷◌, Option, none, some, length, ◌≡◌, ◌↔◌, inl, inr,
  refl, replicate, codes, arith, streq, snprintf, decimal_digits,
}
use lu_language.Ast.{
  Node, node, nil, cons, no_lhs, Payload, NodeKind, node_program, node_block, node_pr,
  node_func_decl, node_class_decl, node_method_decl, node_literal_str, node_send,
}
use lu_language.Blocks.{BlockInfo, new_block, find_from, breg_find, breg_get_or_create}
use lu_language.Semantic.Symbols.{SymTable, new_symbol, cut_name, cut_type, sym_add, sym_find}
use lu_language.Semantic.Collect.Block.{
  Outcome, done, network_stub, null_block, is_found, declare, print_int, semantic_is_class_like,
  collect_block, scan_block, update_block,
}
use lu_language.Semantic.Collect.Names.{
  semantic_op_mangle, declare_member, declare_members, declare_class, declare_func, declare_simple,
  declare_values, declare_enum,
}
use lu_language.Semantic.Collect.Pass.{declare_names, collect_here, first_pass}
use lu_language.Semantic.Collect.Growth.{table_of}
use lu_language.Semantic.Collect.Declared.{first_pass-declares, first_pass-IsValid}
use lu_language.Semantic.Symbols.Lookup.{IsValid}
use lu_language.Semantic.Collect.NullBlock.{Overfull, collect_block-null_iff}

abbrev fields : NodeKind → ℕ → Option Bytes → Payload
fields kind line sval = record {
  kind = kind;
  line = line;
  sval = sval;
  ival = pos 0;
  fval = 0;
  bval = false;
  block_n = pos 7;
  type_name = none;
  op = none;
  annot = none;
}

abbrev text_node : Node
text_node = node (fields node_literal_str 4 (some (codes "hi"))) nil no_lhs

abbrev pr_node : Node
pr_node = node (fields node_pr 4 none) (cons text_node nil) no_lhs

abbrev function_fields : Payload
function_fields = fields node_func_decl 9 (some (codes "late"))

abbrev tree : Node
tree =
    node (fields node_program 1 none)
      (cons (node (fields node_block 3 none) (cons pr_node nil) no_lhs) (
        cons
          (node (fields node_class_decl 5 (some (codes "A")))
            (cons (node (fields node_method_decl 6 (some (codes "m"))) nil no_lhs) nil) no_lhs)
          (cons (node function_fields nil no_lhs) nil)))
      no_lhs

abbrev names_of : SymTable → List Bytes
names_of [] = []
names_of (s ∷ st) = s.name ∷ names_of st

test_names :
    names_of (table_of (first_pass tree [] []))
    ≡ codes "_q7" ∷ codes "A" ∷ codes "A_m" ∷ codes "late" ∷ []
unfolding first_pass collect_here collect_block declare_names declare semantic_op_mangle
    declare_member declare_members declare_class declare_func declare_simple declare_values
    declare_enum semantic_is_class_like sym_add sym_find streq snprintf print_int decimal_digits
    breg_get_or_create breg_find find_from scan_block update_block new_symbol cut_name cut_type
test_names = refl

test_network : first_pass (node (fields node_send 2 none) nil no_lhs) [] [] ≡ network_stub 2
unfolding first_pass collect_here
test_network = refl

collect_block-null_iff_example :
    (collect_block
        (fields node_block 3 none)
        (cons pr_node nil)
        []
        (replicate 512 (new_block (pos 1)))
      ≡ null_block 3)
    ↔ Overfull (fields node_block 3 none) (cons pr_node nil) (replicate 512 (new_block (pos 1)))
collect_block-null_iff_example =
    collect_block-null_iff (fields node_block 3 none) (cons pr_node nil) []
      (replicate 512 (new_block (pos 1)))

abbrev blocks_of : Outcome → List BlockInfo
blocks_of (done st br) = br
blocks_of _ = []

abbrev last_table : SymTable
last_table = table_of (first_pass tree [] [])

tree_done : first_pass tree [] [] ≡ done last_table (blocks_of (first_pass tree [] []))
unfolding first_pass collect_here collect_block declare_names declare semantic_op_mangle
    declare_member declare_members declare_class declare_func declare_simple declare_values
    declare_enum semantic_is_class_like sym_add sym_find streq snprintf print_int decimal_digits
    breg_get_or_create breg_find find_from scan_block update_block new_symbol cut_name cut_type
tree_done = refl

table_room : length last_table ≤ 4095
unfolding first_pass collect_here collect_block declare_names declare semantic_op_mangle
    declare_member declare_members declare_class declare_func declare_simple declare_values
    declare_enum semantic_is_class_like sym_add sym_find streq snprintf print_int decimal_digits
    breg_get_or_create breg_find find_from scan_block update_block new_symbol cut_name cut_type
table_room = omega arith

first_pass-declares_example : is_found (sym_find last_table (codes "late")) ≡ true
first_pass-declares_example =
    first_pass-declares tree [] [] last_table (blocks_of (first_pass tree [] [])) function_fields
      (codes "late") tree_done table_room (inr (inr (inr (inl (inl refl))))) refl refl (omega arith)

empty-IsValid : IsValid []
empty-IsValid = record { entries_fit = tt; bounded = omega arith }

first_pass-IsValid_example : IsValid last_table
first_pass-IsValid_example =
    first_pass-IsValid tree [] [] last_table (blocks_of (first_pass tree [] [])) tree_done
      empty-IsValid
