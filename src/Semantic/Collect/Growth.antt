-- ===== src/Semantic/Collect/Growth.antt =====
-- What the parts of `first_pass` of src/semantic.c do to the symbol table.
use lu_language.Prelude.{
  or_else, ℕ, ℤ, ◌≤◌, Bytes, Bool, true, false, List, [], ◌∷◌, ◌++◌, append-nil, append_assoc,
  Option, none, some, leb, ltb, length, length-append, take, take_of_length_le, streq, streq_iff,
  ◌≡◌, refl, sym, ap, ◌∙◌, inl, inr, Bool-cases, arith,
}
use lu_language.Ast.{
  Nodes, nil, cons, Payload, payload, NodeKind, node_method_decl, node_constructor, node_destructor,
  node_op_overload, node_chan_decl, node_def_const, node_enum_decl,
}
use lu_language.Blocks.{BlockInfo}
use lu_language.Semantic.Symbols.{Symbol, SymTable, new_symbol, sym_add, sym_find}
use lu_language.Semantic.Symbols.Lookup.{
  IsValid, sym_add-IsValid, sym_find-append, sym_find-sym_add,
}
use lu_language.Semantic.Collect.Block.{
  Outcome, done, is_found, declare, is_block, declares_function, semantic_is_class_like,
  looks_at_block, scanned, collect_block,
}
use lu_language.Semantic.Collect.Names.{
  declare_member, declare_members, declare_class, function_named, declare_func, declare_simple,
  declare_value, declare_values, declare_enum,
}

-- The second table is the first one with entries behind it.
abbrev Extends : SymTable → SymTable → Type 0
Extends st st' = (more : SymTable) × (st' ≡ st ++ more)

-- And it keeps the shape of the first.
abbrev pub Grows : SymTable → SymTable → Type 0
Grows st st' = Extends st st' × (IsValid st → IsValid st')

pub Grows-refl : (st : SymTable) → Grows st st
Grows-refl st = (([], sym (append-nil st)), λ v. v)

pub Grows-trans : (a b c : SymTable) → Grows a b → Grows b c → Grows a c
Grows-trans a b c ((m, e), v) ((n, f), w) =
    ((m ++ n, f ∙ ap (λ t. t ++ n) e ∙ append_assoc a m n), λ u. w (v u))

sym_add-Extends :
    (st : SymTable) (name type : Option Bytes) (scope : ℤ) (p f c : Bool) (line : ℕ)
    → Extends st (sym_add st name type scope p f c line)
unfolding sym_add
sym_add-Extends st name type scope p f c line = elim (Bool-cases (leb 4096 (length st))) [
  | inl full ↦ rw full ([], sym (append-nil st))
  | inr room ↦ rw room (new_symbol name type scope p f c line ∷ [], refl)
]

sym_add-Grows :
    (st : SymTable) (name type : Option Bytes) (scope : ℤ) (p f c : Bool) (line : ℕ)
    → Grows st (sym_add st name type scope p f c line)
sym_add-Grows st name type scope p f c line =
    (sym_add-Extends st name type scope p f c line, sym_add-IsValid st name type scope p f c line)

declare-Grows :
    (st : SymTable) (name type : Bytes) (p f c : Bool) (line : ℕ)
    → Grows st (declare st name type p f c line)
unfolding declare
declare-Grows st name type p f c line = elim (Bool-cases (is_found (sym_find st name))) [
  | inl on ↦ rw on (Grows-refl st)
  | inr off ↦ rw off (sym_add-Grows st (some name) (some type) _ p f c line)
]

found-or_else : (a b : Option Symbol) → is_found b ≡ true → is_found (or_else a b) ≡ true
found-or_else none b h = h
found-or_else (some s) b h = refl

pub found-Grows :
    (st st' : SymTable) (m : Bytes)
    → Grows st st'
    → is_found (sym_find st m) ≡ true
    → is_found (sym_find st' m) ≡ true
found-Grows st st' m ((more, e), v) h =
    rw (e, sym_find-append st more m) (found-or_else (sym_find more m) (sym_find st m) h)

pub length-Grows : (st st' : SymTable) → Grows st st' → length st ≤ length st'
length-Grows st st' ((more, e), v) =
    let f = ap (λ t. length t) e ∙ length-append st more in omega arith

-- With room in the table at the end, a name that fits is found.
pub declare-found :
    (st : SymTable) (name type : Bytes) (p f c : Bool) (line : ℕ)
    → length name ≤ 127
    → length st ≤ 4095
    → is_found (sym_find (declare st name type p f c line) name) ≡ true
unfolding declare
declare-found st name type p f c line short room = elim (Bool-cases (is_found (sym_find st name))) [
  | inl on ↦ rw on on
  | inr off ↦
      let whole : take 127 name ≡ name = take_of_length_le 127 name short in
      let same : streq name name ≡ true = (streq_iff name name).1 refl in
      let free : ltb (length st) 4096 ≡ true = ground arith in
      rw (off, sym_find-sym_add st (some name) (some type) _ p f c line name, whole, same, free)
        refl
]

declare_member-Grows :
    (cn : Bytes) (st : SymTable) (k : NodeKind) (m : Payload) → Grows st (declare_member cn st k m)
unfolding declare_member
declare_member-Grows cn st node_method_decl m = declare-Grows st _ _ false true false m.line
declare_member-Grows cn st node_constructor m = declare-Grows st _ _ false true false m.line
declare_member-Grows cn st node_destructor m = declare-Grows st _ _ false true false m.line
declare_member-Grows cn st node_op_overload m = declare-Grows st _ _ false true false m.line
declare_member-Grows cn st _ m = Grows-refl st

declare_members-Grows :
    (cn : Bytes) (ms : Nodes) (st : SymTable) → Grows st (declare_members cn st ms)
unfolding declare_members
declare_members-Grows cn nil st = Grows-refl st
declare_members-Grows cn (cons m ms) st =
    Grows-trans _ _ _ (declare_member-Grows cn st (payload m).kind (payload m))
      (declare_members-Grows cn ms _)

pub declare_class-Grows :
    (p : Payload) (cs : Nodes) (st : SymTable) → Grows st (declare_class p cs st)
unfolding declare_class
declare_class-Grows p cs st = elim (Bool-cases (semantic_is_class_like p.kind)) [
  | inl on ↦ rw on (
      Grows-trans _ _ _ (declare-Grows st _ _ false false true p.line)
        (declare_members-Grows _ cs _))
  | inr off ↦ rw off (Grows-refl st)
]

function_named-Grows :
    (p : Payload) (st : SymTable) (o : Option Bytes) → Grows st (function_named p st o)
function_named-Grows p st none = Grows-refl st
function_named-Grows p st (some name) = declare-Grows st _ _ false true false p.line

pub declare_func-Grows : (p : Payload) (st : SymTable) → Grows st (declare_func p st)
unfolding declare_func
declare_func-Grows p st = elim (Bool-cases (declares_function p.kind)) [
  | inl on ↦ rw on (function_named-Grows p st p.sval)
  | inr off ↦ rw off (Grows-refl st)
]

pub declare_simple-Grows :
    (k : NodeKind) (p : Payload) (o : Option Bytes) (st : SymTable)
    → Grows st (declare_simple k p o st)
unfolding declare_simple
declare_simple-Grows node_chan_decl p (some name) st = declare-Grows st _ _ true false false p.line
declare_simple-Grows node_def_const p (some name) st = declare-Grows st _ _ false false true p.line
declare_simple-Grows _ p _ st = Grows-refl st

declare_value-Grows :
    (enum : Bytes) (st : SymTable) (m : Payload) (o : Option Bytes)
    → Grows st (declare_value enum st m o)
declare_value-Grows enum st m none = Grows-refl st
declare_value-Grows enum st m (some name) =
    Grows-trans _ _ _ (declare-Grows st _ _ false false true m.line)
      (declare-Grows _ _ _ false false true m.line)

declare_values-Grows :
    (enum : Bytes) (ms : Nodes) (st : SymTable) → Grows st (declare_values enum st ms)
unfolding declare_values
declare_values-Grows enum nil st = Grows-refl st
declare_values-Grows enum (cons m ms) st =
    Grows-trans _ _ _ (declare_value-Grows enum st (payload m) (payload m).sval)
      (declare_values-Grows enum ms _)

pub declare_enum-Grows :
    (k : NodeKind) (p : Payload) (o : Option Bytes) (cs : Nodes) (st : SymTable)
    → Grows st (declare_enum k p o cs st)
unfolding declare_enum
declare_enum-Grows node_enum_decl p (some name) cs st =
    Grows-trans _ _ _ (declare-Grows st _ _ false false true p.line)
      (declare_values-Grows name cs _)
declare_enum-Grows _ p _ cs st = Grows-refl st

abbrev pub table_of : Outcome → SymTable
table_of (done st br) = st
table_of _ = []

pub done-Grows :
    (st st' : SymTable) (br br' : List BlockInfo) → done st br ≡ done st' br' → Grows st st'
done-Grows st st' br br' h =
    let same : st ≡ st' = ap table_of h in (([], sym same ∙ sym (append-nil st)), λ v. rw⁻¹ same v)

scanned-Grows :
    (p : Payload) (cs : Nodes) (st st' : SymTable) (o : Option ℕ) (br br' : List BlockInfo)
    → scanned p cs st o br ≡ done st' br'
    → Grows st st'
scanned-Grows p cs st st' (some i) br br' h = done-Grows st st' _ br' h
scanned-Grows p cs st st' none br br' h = elim (Bool-cases (looks_at_block cs)) [
  | inl on ↦ let e = rw on at h in cc
  | inr off ↦ done-Grows st st' br br' (rw off at h)
]

pub collect_block-Grows :
    (p : Payload) (cs : Nodes) (st st' : SymTable) (br br' : List BlockInfo)
    → collect_block p cs st br ≡ done st' br'
    → Grows st st'
unfolding collect_block
collect_block-Grows p cs st st' br br' h = elim (Bool-cases (is_block p.kind)) [
  | inl on ↦
      Grows-trans _ _ _ (declare-Grows st _ _ false true false p.line)
        (scanned-Grows p cs _ st' _ _ br' (rw on at h))
  | inr off ↦ done-Grows st st' br br' (rw off at h)
]
