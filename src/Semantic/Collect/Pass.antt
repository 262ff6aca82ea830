-- ===== src/Semantic/Collect/Pass.antt =====
-- `first_pass` of src/semantic.c as a whole.
use lu_language.Prelude.{List, if◌then◌else◌}
use lu_language.Ast.{Node, node, Nodes, nil, cons, Payload}
use lu_language.Blocks.{BlockInfo}
use lu_language.Semantic.Symbols.{SymTable}
use lu_language.Semantic.Collect.Block.{
  Outcome, done, network_stub, and_then, is_network, collect_block,
}
use lu_language.Semantic.Collect.Names.{declare_class, declare_func, declare_simple, declare_enum}

-- What a node declares behind its block.
unfoldable pub declare_names : Payload → Nodes → SymTable → SymTable
declare_names p cs st =
    declare_enum p.kind p p.sval cs
      (declare_simple p.kind p p.sval (declare_func p (declare_class p cs st)))

unfoldable pub collect_here : Payload → Nodes → SymTable → List BlockInfo → Outcome
collect_here p cs st br =
    if is_network p.kind
    then network_stub p.line
    else and_then (collect_block p cs st br) (λ st' br'. done (declare_names p cs st') br')

unfoldable mutual
  pub first_pass : Node → SymTable → List BlockInfo → Outcome
  first_pass (node p children l) st br =
      and_then (collect_here p children st br) (λ st' br'. pass_children children st' br')

  pub pass_children : Nodes → SymTable → List BlockInfo → Outcome
  pass_children nil st br = done st br
  pass_children (cons n ns) st br =
      and_then (first_pass n st br) (λ st' br'. pass_children ns st' br')
