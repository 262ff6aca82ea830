-- ===== src/Semantic/Collect/Block.antt =====
-- The outcome of `first_pass` of src/semantic.c, and its part for a block. The pass
-- declares the names of a program before the check.
use lu_language.Prelude.{
  ℕ, zero, suc, ℤ, pos, negsuc, Bytes, Bool, true, false, not, ◌&&◌, ◌||◌, List, [], ◌∷◌, ◌++◌,
  Option, none, some, take, if◌then◌else◌, snprintf, decimal_digits, codes,
}
use lu_language.Ast.{
  Node, Nodes, nil, cons, Payload, NodeKind, node_block, node_pr, node_to, node_server_decl,
  node_send, node_recv, node_bcast, node_route, node_inq, node_literal_str, node_class_decl,
  node_interface_decl, node_impl_decl, node_template_decl, node_struct_decl, node_func_decl,
  node_async_func, payload, children_of,
}
use lu_language.Blocks.{BlockInfo, breg_get_or_create}
use lu_language.Semantic.Symbols.{Symbol, SymTable, sym_add, sym_find}

-- The pass ends with the two tables, with the error on a network node, or in an access through the
-- null pointer that `breg_get_or_create` answers when its registry is full.
pub data Outcome : Type 0 where
  done : SymTable → List BlockInfo → Outcome
  network_stub : ℕ → Outcome
  null_block : ℕ → Outcome

abbrev pub and_then : Outcome → (SymTable → List BlockInfo → Outcome) → Outcome
and_then (done st br) f = f st br
and_then (network_stub line) f = network_stub line
and_then (null_block line) f = null_block line

abbrev pub global : ℤ
global = negsuc 0

abbrev pub is_found : Option Symbol → Bool
is_found none = false
is_found (some s) = true

-- `if (!sym_find(st, name)) sym_add(st, name, type, -1, ...)`
unfoldable pub declare : SymTable → Bytes → Bytes → Bool → Bool → Bool → ℕ → SymTable
declare st name type is_ptr is_func is_const line =
    if is_found (sym_find st name)
    then st
    else sym_add st (some name) (some type) global is_ptr is_func is_const line

abbrev pub declare_function : SymTable → Bytes → Bytes → ℕ → SymTable
declare_function st name type line = declare st name type false true false line

abbrev pub declare_constant : SymTable → Bytes → Bytes → ℕ → SymTable
declare_constant st name type line = declare st name type false false true line

abbrev pub is_network : NodeKind → Bool
is_network node_server_decl = true
is_network node_send = true
is_network node_recv = true
is_network node_bcast = true
is_network node_route = true
is_network node_inq = true
is_network _ = false

abbrev pub is_block : NodeKind → Bool
is_block node_block = true
is_block _ = false

abbrev pub is_pr : NodeKind → Bool
is_pr node_pr = true
is_pr _ = false

abbrev pub is_to : NodeKind → Bool
is_to node_to = true
is_to _ = false

abbrev pub is_text : NodeKind → Bool
is_text node_literal_str = true
is_text _ = false

unfoldable pub semantic_is_class_like : NodeKind → Bool
semantic_is_class_like node_class_decl = true
semantic_is_class_like node_interface_decl = true
semantic_is_class_like node_impl_decl = true
semantic_is_class_like node_template_decl = true
semantic_is_class_like node_struct_decl = true
semantic_is_class_like _ = false

abbrev pub declares_function : NodeKind → Bool
declares_function node_func_decl = true
declares_function node_async_func = true
declares_function _ = false

-- `if (text) strncpy(field, text, 255)`
abbrev pub copy_text : Bytes → Option Bytes → Bytes
copy_text field none = field
copy_text field (some text) = take 255 text

abbrev pub note_pr : BlockInfo → Nodes → BlockInfo
note_pr bi nil = bi
note_pr bi (cons e es) = record bi {
  pr_expr = copy_text bi.pr_expr (payload e).sval;
  has_pr = true;
}

abbrev pub note_to : BlockInfo → Nodes → BlockInfo
note_to bi nil = bi
note_to bi (cons inner es) = record bi {
  to_answer =
      if is_text (payload inner).kind
      then copy_text bi.to_answer (payload inner).sval
      else bi.to_answer;
  has_to = true;
}

abbrev pub note_child : BlockInfo → Node → BlockInfo
note_child bi c =
    if is_pr (payload c).kind && not bi.has_pr
    then note_pr bi (children_of c)
    else if is_to (payload c).kind && not bi.has_to
    then note_to bi (children_of c)
    else bi

unfoldable pub scan_block : BlockInfo → Nodes → BlockInfo
scan_block bi nil = bi
scan_block bi (cons c cs) = scan_block (note_child bi c) cs

-- The children for which the loop looks into the block.
unfoldable pub looks_at_block : Nodes → Bool
looks_at_block nil = false
looks_at_block (cons c cs) = is_pr (payload c).kind || is_to (payload c).kind || looks_at_block cs

unfoldable pub update_block : ℕ → Nodes → List BlockInfo → List BlockInfo
update_block i cs [] = []
update_block zero cs (b ∷ bs) = scan_block b cs ∷ bs
update_block (suc i) cs (b ∷ bs) = b ∷ update_block i cs bs

unfoldable pub print_int : ℤ → Bytes
print_int (pos n) = decimal_digits n n []
print_int (negsuc n) = b'-' ∷ decimal_digits (suc n) (suc n) []

abbrev pub block_name : ℤ → Bytes
block_name n = snprintf 32 (codes "_q" ++ print_int n)

abbrev pub scanned : Payload → Nodes → SymTable → Option ℕ → List BlockInfo → Outcome
scanned p cs st (some i) br = done st (update_block i cs br)
scanned p cs st none br = if looks_at_block cs then null_block p.line else done st br

unfoldable pub collect_block : Payload → Nodes → SymTable → List BlockInfo → Outcome
collect_block p cs st br =
    if is_block p.kind
    then scanned p cs (declare_function st (block_name p.block_n) (codes "void") p.line)
        (breg_get_or_create br p.block_n).0 (breg_get_or_create br p.block_n).1
    else done st br
