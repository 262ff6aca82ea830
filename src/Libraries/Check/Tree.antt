-- ===== src/Libraries/Check/Tree.antt =====
-- `check_library_usage` of src/libraries.c against a description of the trees that it accepts.
use lu_language.Prelude.{
  ℕ, ◌+◌, Bool, true, ◌&&◌, Option, none, some, ◌==◌, ◌≡◌, ◌↔◌, inl, inr, refl, ap, ◌∙◌, Bool-cases,
  arith,
}
use lu_language.Ast.{Node, node, Nodes, nil, cons, Payload, count, children_of}
use lu_language.Libraries.Api.{LibraryFunction, tensor_function, has_tensor_import}
use lu_language.Libraries.Check.Offence.{Offence}
use lu_language.Libraries.Check.Guards.{Passes, Offence-Passes, Passes-Offence, true-ne-false}
use lu_language.Libraries.Check.{
  Error, then_check, check_arity, arity_error, is_call, check_payload, check_library_node,
  check_children, check_library_usage,
}

-- What the library asks of a node with `n` children at a depth: it has none of the offences.
abbrev pub Lawful : Bool → ℕ → Payload → ℕ → Type 0
Lawful enabled depth p n = Offence enabled depth p n → ⊥

abbrev mutual
  pub LawfulTree : Bool → ℕ → Node → Type 0
  LawfulTree enabled depth (node p children l) =
      Lawful enabled depth p (count children) × LawfulTrees enabled (depth + 1) children

  pub LawfulTrees : Bool → ℕ → Nodes → Type 0
  LawfulTrees enabled depth nil = Unit
  LawfulTrees enabled depth (cons n ns) = LawfulTree enabled depth n × LawfulTrees enabled depth ns

-- The last guard, the only one that compares numbers.
arity_error_iff :
    (p : Payload) (n : ℕ) (o : Option LibraryFunction)
    → (arity_error p n o ≡ none) ↔ ((f : LibraryFunction) → o ≡ some f → n ≡ f.arity)
arity_error_iff p n none = (λ h f e. cc, λ h. refl)
arity_error_iff p n (some f) = elim (Bool-cases (n == f.arity)) [
  | inl same ↦ rw same (
    λ h g e.
        (let at : n ≡ f.arity = ground arith in let eq : f ≡ g = cc in at ∙ ap (λ x. x.arity) eq),
    λ h. refl,
  )
  | inr other ↦ rw other (λ h g e. cc, λ h. let k = h f refl in ground arith)
]

check_arity_iff :
    (enabled : Bool) (p : Payload) (n : ℕ)
    → (check_arity enabled p n ≡ none) ↔ (
        (f : LibraryFunction)
        → (enabled && is_call p.kind) ≡ true
        → tensor_function p.sval ≡ some f
        → n ≡ f.arity)
unfolding check_arity
check_arity_iff enabled p n = elim (Bool-cases (enabled && is_call p.kind)) [
  | inr off ↦ (λ h f on e. absurd (true-ne-false on off), λ h. rw off refl)
  | inl on ↦
      let s = arity_error_iff p n (tensor_function p.sval) in
      (λ h f call e. s.0 (rw on at h) f e, λ h. rw on (s.1 (λ f e. h f on e)))
]

check_payload-Passes :
    (enabled : Bool) (depth : ℕ) (p : Payload) (n : ℕ)
    → check_payload enabled depth p n ≡ none
    → Passes enabled depth p n
unfolding check_payload
check_payload-Passes enabled depth p n h = record {
  spelled = ground arith;
  file_scope = ground arith;
  enabled_use = ground arith;
  public_use = ground arith;
  own_functions = ground arith;
  own_types = ground arith;
  arity = (check_arity_iff enabled p n).0 (ground arith);
}

Passes-check_payload :
    (enabled : Bool) (depth : ℕ) (p : Payload) (n : ℕ)
    → Passes enabled depth p n
    → check_payload enabled depth p n ≡ none
unfolding check_payload
Passes-check_payload enabled depth p n l =
    let arity = (check_arity_iff enabled p n).1 l.arity in ground arith

check_payload-Lawful :
    (enabled : Bool) (depth : ℕ) (p : Payload) (n : ℕ)
    → check_payload enabled depth p n ≡ none
    → Lawful enabled depth p n
check_payload-Lawful enabled depth p n h =
    Passes-Offence enabled depth p n (check_payload-Passes enabled depth p n h)

Lawful-check_payload :
    (enabled : Bool) (depth : ℕ) (p : Payload) (n : ℕ)
    → Lawful enabled depth p n
    → check_payload enabled depth p n ≡ none
Lawful-check_payload enabled depth p n l =
    Passes-check_payload enabled depth p n (Offence-Passes enabled depth p n l)

then_check-none : (a b : Option Error) → then_check a b ≡ none → (a ≡ none) × (b ≡ none)
then_check-none none b h = (refl, h)
then_check-none (some e) b h = cc

mutual
  unfolding check_library_node

  node-LawfulTree :
      (n : Node) (enabled : Bool) (depth : ℕ)
      → check_library_node n enabled depth ≡ none
      → LawfulTree enabled depth n
  node-LawfulTree (node p children l) enabled depth h =
      let parts = then_check-none (check_payload enabled depth p (count children)) _ h in
      (
        check_payload-Lawful enabled depth p (count children) parts.0,
        children-LawfulTrees children enabled (depth + 1) parts.1,
      )

  children-LawfulTrees :
      (ns : Nodes) (enabled : Bool) (depth : ℕ)
      → check_children ns enabled depth ≡ none
      → LawfulTrees enabled depth ns
  children-LawfulTrees nil enabled depth h = tt
  children-LawfulTrees (cons n ns) enabled depth h =
      let parts = then_check-none (check_library_node n enabled depth) _ h in
      (node-LawfulTree n enabled depth parts.0, children-LawfulTrees ns enabled depth parts.1)

mutual
  unfolding check_library_node

  LawfulTree-node :
      (n : Node) (enabled : Bool) (depth : ℕ)
      → LawfulTree enabled depth n
      → check_library_node n enabled depth ≡ none
  LawfulTree-node (node p children l) enabled depth h =
      rw (Lawful-check_payload enabled depth p (count children) h.0)
        (LawfulTrees-children children enabled (depth + 1) h.1)

  LawfulTrees-children :
      (ns : Nodes) (enabled : Bool) (depth : ℕ)
      → LawfulTrees enabled depth ns
      → check_children ns enabled depth ≡ none
  LawfulTrees-children nil enabled depth h = refl
  LawfulTrees-children (cons n ns) enabled depth h =
      rw (LawfulTree-node n enabled depth h.0) (LawfulTrees-children ns enabled depth h.1)

-- The check accepts a program exactly when no node of its tree has an offence. The offences are: an
-- import of <tensor.h> or "tensor.h", or an include of "tensor.h"; an include of <tensor.h> away
-- from file scope; without an include of <tensor.h> at file scope, the word Tensor in a type, in a
-- `new` or in a cast, and a call or the name of a tensor function; a call or a name that begins
-- with lu_tensor_; a function declaration, not of an async function, with the name of a tensor
-- function; a class, struct, enum or union named Tensor; and with the include, a call of a tensor
-- function with another number of arguments than the function takes.
pub check_library_usage_iff :
    (root : Node)
    → (check_library_usage root ≡ none) ↔ LawfulTree (has_tensor_import (children_of root)) 0 root
unfolding check_library_usage
check_library_usage_iff root = (
  node-LawfulTree root (has_tensor_import (children_of root)) 0,
  LawfulTree-node root (has_tensor_import (children_of root)) 0,
)
