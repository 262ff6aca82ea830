-- ===== src/Libraries/Check/Guards.antt =====
-- The guards of `check_library_node` of src/libraries.c strike exactly at an offence.
use lu_language.Prelude.{
  ℕ, Bool, true, false, ◌&&◌, ◌==◌, some, ◌≡◌, ◌≢◌, ◌⊎◌, inl, inr, refl, sym, ap, ◌∙◌, Bool-cases,
  streq, codes, arith,
}
use lu_language.Ast.{Payload}
use lu_language.Libraries.Api.{
  LibraryFunction, tensor_function, text_is, is_include, is_tensor_import, contains_tensor_type,
}
use lu_language.Libraries.Check.{
  misspelt_import, type_use, api_use, private_use, redefines_api, redefines_type, is_import_kind,
  is_call_or_name, is_call, is_new, is_unop, is_function, is_type_decl, is_some, starts_text,
}
use lu_language.Libraries.Check.Offence.{
  text_is-some, some-text_is, starts_text-Begins, Begins-starts_text, contains-HasTensor,
  HasTensor-contains, is_some-some, is_import_kind-cases, is_call_or_name-IsUse,
  IsUse-is_call_or_name, is_type_decl-IsTypeDecl, IsTypeDecl-is_type_decl, is_call-kind,
  is_new-kind, is_unop-kind, is_function-kind, is_include-kind, Offence, imported, quoted_import,
  quoted_include, nested_include, has_type, makes, casts, uses, is_private, own_function, own_type,
  miscounted,
}

-- What the guards say when all of them let a node pass.
pub record Passes (enabled : Bool) (depth : ℕ) (p : Payload) (n : ℕ) : Type 0 where
  pub spelled : misspelt_import p ≡ false
  pub file_scope : (is_tensor_import p ≡ false) ⊎ (depth ≡ 1)
  pub enabled_use : (enabled ≡ true) ⊎ (type_use p ≡ false) × (api_use p ≡ false)
  pub public_use : private_use p ≡ false
  pub own_functions : redefines_api p ≡ false
  pub own_types : redefines_type p ≡ false
  pub arity :
      (f : LibraryFunction)
      → (enabled && is_call p.kind) ≡ true
      → tensor_function p.sval ≡ some f
      → n ≡ f.arity

pub true-ne-false : {b : Bool} → b ≡ true → b ≡ false → ⊥
true-ne-false h k = cc

unused :
    (enabled : Bool) (depth : ℕ) (p : Payload) (n : ℕ)
    → Passes enabled depth p n
    → enabled ≡ false
    → (type_use p ≡ false) × (api_use p ≡ false)
unused enabled depth p n h off = elim h.enabled_use [
  | inl on ↦ absurd (true-ne-false on off)
  | inr none_used ↦ none_used
]

other_spelling : text_is "<tensor.h>" (some (codes "\"tensor.h\"")) ≡ false
unfolding text_is streq
other_spelling = refl

silent : (b : Bool) → (b ≡ true → ⊥) → b ≡ false
silent true h = absurd (h refl)
silent false h = refl

-- A guard that strikes has found an offence.
module _ (enabled : Bool) (depth : ℕ) (p : Payload) (n : ℕ) where
  misspelt_import-Offence : misspelt_import p ≡ true → Offence enabled depth p n
  unfolding misspelt_import is_tensor_import
  misspelt_import-Offence h =
      let kinds : is_import_kind p.kind ≡ true = ground arith in
      elim (is_import_kind-cases p.kind kinds) [
        | inl k ↦ elim (Bool-cases (text_is "<tensor.h>" p.sval)) [
          | inl e ↦ imported k (text_is-some "<tensor.h>" p.sval e)
          | inr e ↦ quoted_import k (text_is-some "\"tensor.h\"" p.sval (ground arith))
        ]
        | inr k ↦ elim (Bool-cases (text_is "<tensor.h>" p.sval)) [
          | inl e ↦ let off = rw (k, e) at h in absurd (true-ne-false refl (sym off))
          | inr e ↦ quoted_include k (text_is-some "\"tensor.h\"" p.sval (ground arith))
        ]
      ]

  is_tensor_import-Offence : is_tensor_import p ≡ true → depth ≢ 1 → Offence enabled depth p n
  unfolding is_tensor_import
  is_tensor_import-Offence h deep =
      let parts : (is_include p.kind ≡ true) × (text_is "<tensor.h>" p.sval ≡ true) =
        ground arith in
      nested_include (is_include-kind p.kind parts.0) (text_is-some "<tensor.h>" p.sval parts.1)
        deep

  type_use-Offence : enabled ≡ false → type_use p ≡ true → Offence enabled depth p n
  unfolding type_use
  type_use-Offence off h = elim (Bool-cases (contains_tensor_type p.type_name)) [
    | inl e ↦ has_type off (contains-HasTensor p.type_name e)
    | inr e ↦ elim (Bool-cases (is_new p.kind && contains_tensor_type p.sval)) [
      | inl k ↦
          let parts : (is_new p.kind ≡ true) × (contains_tensor_type p.sval ≡ true) =
            ground arith in
          makes off (is_new-kind p.kind parts.0) (contains-HasTensor p.sval parts.1)
      | inr k ↦
          let parts : (is_unop p.kind ≡ true)
              × (starts_text (codes "(cast:") p.op ≡ true)
              × (contains_tensor_type p.op ≡ true) =
            ground arith in
          casts off (is_unop-kind p.kind parts.0) (starts_text-Begins (codes "(cast:") p.op parts.1)
            (contains-HasTensor p.op parts.2)
    ]
  ]

  api_use-Offence : enabled ≡ false → api_use p ≡ true → Offence enabled depth p n
  unfolding api_use
  api_use-Offence off h =
      let parts : (is_call_or_name p.kind ≡ true) × (is_some (tensor_function p.sval) ≡ true) =
        ground arith in
      let known = is_some-some (tensor_function p.sval) parts.1 in
      uses known.0 off (is_call_or_name-IsUse p.kind parts.0) known.1

  private_use-Offence : private_use p ≡ true → Offence enabled depth p n
  unfolding private_use
  private_use-Offence h =
      let parts : (is_call_or_name p.kind ≡ true)
          × (starts_text (codes "lu_tensor_") p.sval ≡ true) =
        ground arith in
      is_private (is_call_or_name-IsUse p.kind parts.0)
        (starts_text-Begins (codes "lu_tensor_") p.sval parts.1)

  redefines_api-Offence : redefines_api p ≡ true → Offence enabled depth p n
  unfolding redefines_api
  redefines_api-Offence h =
      let parts : (is_function p.kind ≡ true) × (is_some (tensor_function p.sval) ≡ true) =
        ground arith in
      let known = is_some-some (tensor_function p.sval) parts.1 in
      own_function known.0 (is_function-kind p.kind parts.0) known.1

  redefines_type-Offence : redefines_type p ≡ true → Offence enabled depth p n
  unfolding redefines_type
  redefines_type-Offence h =
      let parts : (is_type_decl p.kind ≡ true) × (text_is "Tensor" p.sval ≡ true) = ground arith in
      own_type (is_type_decl-IsTypeDecl p.kind parts.0) (text_is-some "Tensor" p.sval parts.1)

module _ (enabled : Bool) (depth : ℕ) (p : Payload) (n : ℕ) where
  -- No guard strikes a node without an offence.
  pub Offence-Passes : (Offence enabled depth p n → ⊥) → Passes enabled depth p n
  Offence-Passes clean = record {
    spelled = silent (misspelt_import p) (λ h. clean (misspelt_import-Offence enabled depth p n h));
    file_scope = elim (Bool-cases (is_tensor_import p)) [
      | inr off ↦ inl off
      | inl on ↦ elim (Bool-cases (depth == 1)) [
        | inl e ↦ inr (ground arith)
        | inr e ↦ absurd (clean (is_tensor_import-Offence enabled depth p n on (λ d. ground arith)))
      ]
    ];
    enabled_use = elim (Bool-cases enabled) [
      | inl on ↦ inl on
      | inr off ↦ inr (
        silent (type_use p) (λ h. clean (type_use-Offence enabled depth p n off h)),
        silent (api_use p) (λ h. clean (api_use-Offence enabled depth p n off h)),
      )
    ];
    public_use = silent (private_use p) (λ h. clean (private_use-Offence enabled depth p n h));
    own_functions =
        silent (redefines_api p) (λ h. clean (redefines_api-Offence enabled depth p n h));
    own_types = silent (redefines_type p) (λ h. clean (redefines_type-Offence enabled depth p n h));
    arity = λ f h e. elim (Bool-cases (n == f.arity)) [
      | inl same ↦ ground arith
      | inr other ↦
          let parts : (enabled ≡ true) × (is_call p.kind ≡ true) = ground arith in
          absurd
            (clean (miscounted f parts.0 (is_call-kind p.kind parts.1) e (λ same. ground arith)))
    ];
  }

  -- Each offence strikes a guard.
  pub Passes-Offence : Passes enabled depth p n → Offence enabled depth p n → ⊥
  unfolding misspelt_import is_tensor_import type_use api_use private_use redefines_api
      redefines_type
  Passes-Offence h (imported k e) =
      true-ne-false (rw (k, some-text_is "<tensor.h>" p.sval e) refl) h.spelled
  Passes-Offence h (quoted_import k e) =
      true-ne-false (rw (k, some-text_is "\"tensor.h\"" p.sval e) (ground arith)) h.spelled
  Passes-Offence h (quoted_include k e) =
      let other = ap (text_is "<tensor.h>") e ∙ other_spelling in
      true-ne-false (rw (k, some-text_is "\"tensor.h\"" p.sval e, other) refl) h.spelled
  Passes-Offence h (nested_include k e deep) = elim h.file_scope [
    | inl off ↦ true-ne-false (rw (k, some-text_is "<tensor.h>" p.sval e) refl) off
    | inr d ↦ deep d
  ]
  Passes-Offence h (has_type off t) =
      true-ne-false (rw (HasTensor-contains p.type_name t) refl) (unused enabled depth p n h off).0
  Passes-Offence h (makes off k t) =
      true-ne-false (rw (k, HasTensor-contains p.sval t) (ground arith))
        (unused enabled depth p n h off).0
  Passes-Offence h (casts off k b t) =
      true-ne-false
        (rw (k, Begins-starts_text (codes "(cast:") p.op b, HasTensor-contains p.op t)
          (ground arith))
        (unused enabled depth p n h off).0
  Passes-Offence h (uses f off k e) =
      true-ne-false (rw (IsUse-is_call_or_name p.kind k, e) refl) (unused enabled depth p n h off).1
  Passes-Offence h (is_private k b) =
      true-ne-false
        (rw (IsUse-is_call_or_name p.kind k, Begins-starts_text (codes "lu_tensor_") p.sval b) refl)
        h.public_use
  Passes-Offence h (own_function f k e) = true-ne-false (rw (k, e) refl) h.own_functions
  Passes-Offence h (own_type k e) =
      true-ne-false (rw (IsTypeDecl-is_type_decl p.kind k, some-text_is "Tensor" p.sval e) refl)
        h.own_types
  Passes-Offence h (miscounted f on k e other) = other (h.arity f (rw (on, k) refl) e)
