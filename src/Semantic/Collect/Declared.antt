-- ===== src/Semantic/Collect/Declared.antt =====
-- The symbol table after `first_pass` of src/semantic.c.
use lu_language.Prelude.{
  ◌≤◌, Bytes, true, false, List, some, length, ◌≡◌, ◌⊎◌, inl, inr, refl, sym, ap, Bool-cases, arith,
}
use lu_language.Ast.{Node, node, Nodes, nil, cons, Payload}
use lu_language.Blocks.{BlockInfo}
use lu_language.Semantic.Symbols.{SymTable, sym_find}
use lu_language.Semantic.Symbols.Lookup.{IsValid}
use lu_language.Semantic.Collect.Block.{
  Outcome, done, network_stub, null_block, and_then, is_found, is_network, declares_function,
  collect_block,
}
use lu_language.Semantic.Collect.Names.{declare_class, declare_func}
use lu_language.Semantic.Collect.Pass.{declare_names, collect_here, first_pass, pass_children}
use lu_language.Semantic.Collect.Growth.{
  Grows, Grows-trans, found-Grows, length-Grows, declare-found, table_of, done-Grows,
  collect_block-Grows, declare_class-Grows, declare_func-Grows, declare_simple-Grows,
  declare_enum-Grows,
}

-- A node with these fields stands in the tree.
abbrev mutual
  pub Holds : Payload → Node → Type 0
  Holds p (node q children l) = (p ≡ q) ⊎ HoldsAny p children

  pub HoldsAny : Payload → Nodes → Type 0
  HoldsAny p nil = ⊥
  HoldsAny p (cons n ns) = Holds p n ⊎ HoldsAny p ns

record Then (o : Outcome) (f : SymTable → List BlockInfo → Outcome) (st' : SymTable)
    (br' : List BlockInfo) : Type 0 where
  st : SymTable
  br : List BlockInfo
  before : o ≡ done st br
  behind : f st br ≡ done st' br'

and_then-Then :
    (o : Outcome) (f : SymTable → List BlockInfo → Outcome) (st' : SymTable) (br' : List BlockInfo)
    → and_then o f ≡ done st' br'
    → Then o f st' br'
and_then-Then (done st br) f st' br' h = record { st = st; br = br; before = refl; behind = h }
and_then-Then (network_stub line) f st' br' h = cc
and_then-Then (null_block line) f st' br' h = cc

declare_names-Grows : (p : Payload) (cs : Nodes) (st : SymTable) → Grows st (declare_names p cs st)
unfolding declare_names
declare_names-Grows p cs st = Grows-trans _ _ _ (declare_class-Grows p cs st) (
    Grows-trans _ _ _ (declare_func-Grows p _) (
      Grows-trans _ _ _ (declare_simple-Grows p.kind p p.sval _)
        (declare_enum-Grows p.kind p p.sval cs _)))

-- What a node that declares a function leaves in the table.
declare_func-found :
    (p : Payload) (st : SymTable) (name : Bytes)
    → declares_function p.kind ≡ true
    → p.sval ≡ some name
    → length name ≤ 127
    → length st ≤ 4095
    → is_found (sym_find (declare_func p st) name) ≡ true
unfolding declare_func
declare_func-found p st name k e short room =
    rw (k, e) (declare-found st name _ false true false p.line short room)

declare_names-found :
    (p : Payload) (cs : Nodes) (st : SymTable) (name : Bytes)
    → declares_function p.kind ≡ true
    → p.sval ≡ some name
    → length name ≤ 127
    → length (declare_names p cs st) ≤ 4095
    → is_found (sym_find (declare_names p cs st) name) ≡ true
unfolding declare_names
declare_names-found p cs st name k e short room =
    let onward =
      Grows-trans _ _ _ (declare_simple-Grows p.kind p p.sval _)
        (declare_enum-Grows p.kind p p.sval cs _) in
    let all =
      length-Grows _ _ (Grows-trans _ _ _ (declare_func-Grows p (declare_class p cs st)) onward) in
    found-Grows _ _ name onward
      (declare_func-found p (declare_class p cs st) name k e short (omega (arith, all, room)))

collect_here-cases :
    (p : Payload) (cs : Nodes) (st : SymTable) (br : List BlockInfo) (st' : SymTable)
    (br' : List BlockInfo)
    → collect_here p cs st br ≡ done st' br'
    → (mid : SymTable) × (Grows st mid × (st' ≡ declare_names p cs mid))
unfolding collect_here
collect_here-cases p cs st br st' br' h = elim (Bool-cases (is_network p.kind)) [
  | inl on ↦ let e = rw on at h in cc
  | inr off ↦
      let t = and_then-Then (collect_block p cs st br) _ st' br' (rw off at h) in
      (t.st, (collect_block-Grows p cs st t.st br t.br t.before, sym (ap table_of t.behind)))
]

collect_here-Grows :
    (p : Payload) (cs : Nodes) (st : SymTable) (br : List BlockInfo) (st' : SymTable)
    (br' : List BlockInfo)
    → collect_here p cs st br ≡ done st' br'
    → Grows st st'
collect_here-Grows p cs st br st' br' h =
    let c = collect_here-cases p cs st br st' br' h in
    Grows-trans _ _ _ c.1.0 (rw c.1.1 (declare_names-Grows p cs c.0))

collect_here-found :
    (p : Payload) (cs : Nodes) (st : SymTable) (br : List BlockInfo) (st' : SymTable)
    (br' : List BlockInfo) (name : Bytes)
    → collect_here p cs st br ≡ done st' br'
    → declares_function p.kind ≡ true
    → p.sval ≡ some name
    → length name ≤ 127
    → length st' ≤ 4095
    → is_found (sym_find st' name) ≡ true
collect_here-found p cs st br st' br' name h k e short room =
    let c = collect_here-cases p cs st br st' br' h in
    rw c.1.1 (declare_names-found p cs c.0 name k e short (rw c.1.1 at room))

mutual
  unfolding first_pass

  first_pass-Grows :
      (n : Node) (st : SymTable) (br : List BlockInfo) (st' : SymTable) (br' : List BlockInfo)
      → first_pass n st br ≡ done st' br'
      → Grows st st'
  first_pass-Grows (node p children l) st br st' br' h =
      let t = and_then-Then (collect_here p children st br) _ st' br' h in
      Grows-trans _ _ _ (collect_here-Grows p children st br t.st t.br t.before)
        (pass_children-Grows children t.st t.br st' br' t.behind)

  pass_children-Grows :
      (ns : Nodes) (st : SymTable) (br : List BlockInfo) (st' : SymTable) (br' : List BlockInfo)
      → pass_children ns st br ≡ done st' br'
      → Grows st st'
  pass_children-Grows nil st br st' br' h = done-Grows st st' br br' h
  pass_children-Grows (cons n ns) st br st' br' h =
      let t = and_then-Then (first_pass n st br) _ st' br' h in
      Grows-trans _ _ _ (first_pass-Grows n st br t.st t.br t.before)
        (pass_children-Grows ns t.st t.br st' br' t.behind)

module _ (p : Payload) (name : Bytes) (k : declares_function p.kind ≡ true) (e : p.sval ≡ some name)
    (short : length name ≤ 127) where
  mutual
    unfolding first_pass

    node-found :
        (n : Node) (st : SymTable) (br : List BlockInfo) (st' : SymTable) (br' : List BlockInfo)
        → first_pass n st br ≡ done st' br'
        → Holds p n
        → length st' ≤ 4095
        → is_found (sym_find st' name) ≡ true
    node-found (node q children l) st br st' br' h at room =
        let t = and_then-Then (collect_here q children st br) _ st' br' h in
        let later = pass_children-Grows children t.st t.br st' br' t.behind in
        let smaller = length-Grows _ _ later in
        elim at [
          | inl same ↦ found-Grows _ _ name later (
              collect_here-found q children st br t.st t.br name t.before (rw (sym same) k)
                (rw (sym same) e) short (omega (arith, smaller, room)))
          | inr below ↦ children-found children t.st t.br st' br' t.behind below room
        ]

    children-found :
        (ns : Nodes) (st : SymTable) (br : List BlockInfo) (st' : SymTable) (br' : List BlockInfo)
        → pass_children ns st br ≡ done st' br'
        → HoldsAny p ns
        → length st' ≤ 4095
        → is_found (sym_find st' name) ≡ true
    children-found nil st br st' br' h at room = elim at [ ]
    children-found (cons n ns) st br st' br' h (inl at) room =
        let t = and_then-Then (first_pass n st br) _ st' br' h in
        let later = pass_children-Grows ns t.st t.br st' br' t.behind in
        let smaller = length-Grows _ _ later in
        found-Grows _ _ name later
          (node-found n st br t.st t.br t.before at (omega (arith, smaller, room)))
    children-found (cons n ns) st br st' br' h (inr at) room =
        let t = and_then-Then (first_pass n st br) _ st' br' h in
        children-found ns t.st t.br st' br' t.behind at room

-- When the pass ends and leaves room in the symbol table, every function or async function of the
-- tree whose name has at most 127 bytes is found in the table.
pub first_pass-declares :
    (root : Node) (st : SymTable) (br : List BlockInfo) (st' : SymTable) (br' : List BlockInfo)
    (p : Payload) (name : Bytes)
    → first_pass root st br ≡ done st' br'
    → length st' ≤ 4095
    → Holds p root
    → declares_function p.kind ≡ true
    → p.sval ≡ some name
    → length name ≤ 127
    → is_found (sym_find st' name) ≡ true
first_pass-declares root st br st' br' p name h room at k e short =
    node-found p name k e short root st br st' br' h at room

-- A pass that ends keeps every name within 127 bytes, every type within 31 and the symbol table
-- within 4096 entries.
pub first_pass-IsValid :
    (root : Node) (st : SymTable) (br : List BlockInfo) (st' : SymTable) (br' : List BlockInfo)
    → first_pass root st br ≡ done st' br'
    → IsValid st
    → IsValid st'
first_pass-IsValid root st br st' br' h v = (first_pass-Grows root st br st' br' h).1 v
