-- ===== src/Libraries/Check/Offence.antt =====
-- What `check_library_node` of src/libraries.c refuses in one node, described apart from its tests.
use mathlib.Core.Path.{subst}
use lu_language.Prelude.{
  ℕ, Bytes, Bool, true, false, ◌++◌, drop, length, Option, none, some, ◌≡◌, ◌≢◌, ◌⊎◌, inl, inr,
  refl, sym, ap, String, streq_iff, has_prefix_split, has_prefix-append, codes, arith,
}
use lu_language.Ast.{
  Payload, NodeKind, node_import, node_include, node_new_expr, node_expr_unop, node_func_call,
  node_ident, node_func_decl, node_class_decl, node_struct_decl, node_enum_decl, node_union_decl,
}
use lu_language.Libraries.Api.{
  LibraryFunction, tensor_function, text_is, is_include, contains_tensor_type,
}
use lu_language.Libraries.Api.Occurrence.{Occurs, contains_tensor_type_iff}
use lu_language.Libraries.Check.{
  is_import_kind, is_call_or_name, is_call, is_new, is_unop, is_function, is_type_decl, is_some,
  starts_text,
}

-- A text in which `Tensor` occurs as a word.
pub data HasTensor : Option Bytes → Type 0 where
  word : (text : Bytes) → Occurs true text → HasTensor (some text)

-- A text that begins in this way.
pub data Begins (start : Bytes) : Option Bytes → Type 0 where
  begins : (more : Bytes) → Begins start (some (start ++ more))

abbrev pub IsUse : NodeKind → Type 0
IsUse k = (k ≡ node_func_call) ⊎ (k ≡ node_ident)

abbrev pub IsTypeDecl : NodeKind → Type 0
IsTypeDecl k =
    (k ≡ node_class_decl) ⊎ (k ≡ node_struct_decl) ⊎ (k ≡ node_enum_decl) ⊎ (k ≡ node_union_decl)

-- The offences of a node with `n` children at a depth.
pub data Offence (enabled : Bool) (depth : ℕ) (p : Payload) (n : ℕ) : Type 0 where
  imported : p.kind ≡ node_import → p.sval ≡ some (codes "<tensor.h>") → Offence enabled depth p n
  quoted_import :
      p.kind ≡ node_import → p.sval ≡ some (codes "\"tensor.h\"") → Offence enabled depth p n
  quoted_include :
      p.kind ≡ node_include → p.sval ≡ some (codes "\"tensor.h\"") → Offence enabled depth p n
  nested_include :
      p.kind ≡ node_include
      → p.sval ≡ some (codes "<tensor.h>")
      → depth ≢ 1
      → Offence enabled depth p n
  has_type : enabled ≡ false → HasTensor p.type_name → Offence enabled depth p n
  makes : enabled ≡ false → p.kind ≡ node_new_expr → HasTensor p.sval → Offence enabled depth p n
  casts :
      enabled ≡ false
      → p.kind ≡ node_expr_unop
      → Begins (codes "(cast:") p.op
      → HasTensor p.op
      → Offence enabled depth p n
  uses :
      (f : LibraryFunction)
      → enabled ≡ false
      → IsUse p.kind
      → tensor_function p.sval ≡ some f
      → Offence enabled depth p n
  is_private : IsUse p.kind → Begins (codes "lu_tensor_") p.sval → Offence enabled depth p n
  own_function :
      (f : LibraryFunction)
      → p.kind ≡ node_func_decl
      → tensor_function p.sval ≡ some f
      → Offence enabled depth p n
  own_type : IsTypeDecl p.kind → p.sval ≡ some (codes "Tensor") → Offence enabled depth p n
  miscounted :
      (f : LibraryFunction)
      → enabled ≡ true
      → p.kind ≡ node_func_call
      → tensor_function p.sval ≡ some f
      → n ≢ f.arity
      → Offence enabled depth p n

pub text_is-some : (s : String) (o : Option Bytes) → text_is s o ≡ true → o ≡ some (codes s)
unfolding text_is
text_is-some s none h = cc
text_is-some s (some v) h = ap some ((streq_iff v (codes s)).0 h)

pub some-text_is : (s : String) (o : Option Bytes) → o ≡ some (codes s) → text_is s o ≡ true
unfolding text_is
some-text_is s o h = rw h ((streq_iff (codes s) (codes s)).1 refl)

pub starts_text-Begins : (s : Bytes) (o : Option Bytes) → starts_text s o ≡ true → Begins s o
unfolding starts_text
starts_text-Begins s none h = cc
starts_text-Begins s (some v) h =
    subst (λ t. Begins s (some t)) (sym (has_prefix_split s v h)) (begins (drop (length s) v))

pub Begins-starts_text : (s : Bytes) (o : Option Bytes) → Begins s o → starts_text s o ≡ true
unfolding starts_text
Begins-starts_text s _ (begins more) = has_prefix-append s more

pub contains-HasTensor : (o : Option Bytes) → contains_tensor_type o ≡ true → HasTensor o
unfolding contains_tensor_type
contains-HasTensor none h = cc
contains-HasTensor (some text) h = word text ((contains_tensor_type_iff text).0 h)

pub HasTensor-contains : (o : Option Bytes) → HasTensor o → contains_tensor_type o ≡ true
HasTensor-contains _ (word text o) = (contains_tensor_type_iff text).1 o

pub is_some-some :
    (o : Option LibraryFunction) → is_some o ≡ true → (f : LibraryFunction) × (o ≡ some f)
is_some-some none h = cc
is_some-some (some f) h = (f, refl)

pub is_import_kind-cases :
    (k : NodeKind) → is_import_kind k ≡ true → (k ≡ node_import) ⊎ (k ≡ node_include)
is_import_kind-cases k h = ground arith

pub is_call_or_name-IsUse : (k : NodeKind) → is_call_or_name k ≡ true → IsUse k
is_call_or_name-IsUse k h = ground arith

pub IsUse-is_call_or_name : (k : NodeKind) → IsUse k → is_call_or_name k ≡ true
IsUse-is_call_or_name k (inl e) = rw e refl
IsUse-is_call_or_name k (inr e) = rw e refl

pub is_type_decl-IsTypeDecl : (k : NodeKind) → is_type_decl k ≡ true → IsTypeDecl k
is_type_decl-IsTypeDecl k h = ground arith

pub IsTypeDecl-is_type_decl : (k : NodeKind) → IsTypeDecl k → is_type_decl k ≡ true
IsTypeDecl-is_type_decl k h = ground arith

pub is_call-kind : (k : NodeKind) → is_call k ≡ true → k ≡ node_func_call
is_call-kind k h = ground arith

pub is_new-kind : (k : NodeKind) → is_new k ≡ true → k ≡ node_new_expr
is_new-kind k h = ground arith

pub is_unop-kind : (k : NodeKind) → is_unop k ≡ true → k ≡ node_expr_unop
is_unop-kind k h = ground arith

pub is_function-kind : (k : NodeKind) → is_function k ≡ true → k ≡ node_func_decl
is_function-kind k h = ground arith

pub is_include-kind : (k : NodeKind) → is_include k ≡ true → k ≡ node_include
is_include-kind k h = ground arith
