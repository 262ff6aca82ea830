-- ===== src/Semantic/Collect/NullBlock.antt =====
-- When `first_pass` of src/semantic.c follows a null pointer.
use lu_language.Prelude.{
  ℕ, suc, ◌≤◌, ℤ, int_eq, int_eq_iff, true, false, [], ◌∷◌, All, ◌≢◌, sym, ◌∙◌, List, Option, none,
  some, length, leb, ◌≡◌, ◌↔◌, inl, inr, refl, Bool-cases, arith,
}
use lu_language.Ast.{
  Node, Nodes, nil, cons, Payload, NodeKind, node_block, node_pr, node_to, payload,
}
use lu_language.Blocks.{BlockInfo, find_from, breg_find, add_block, or_add, breg_get_or_create}
use lu_language.Semantic.Symbols.{SymTable}
use lu_language.Semantic.Collect.Block.{
  null_block, is_block, is_pr, is_to, looks_at_block, scanned, collect_block,
}

-- A child is a `Pr/` or a `To/`.
pub data HasLook : Nodes → Type 0 where
  by_pr : {c : Node} {cs : Nodes} → (payload c).kind ≡ node_pr → HasLook (cons c cs)
  by_to : {c : Node} {cs : Nodes} → (payload c).kind ≡ node_to → HasLook (cons c cs)
  later : {c : Node} {cs : Nodes} → HasLook cs → HasLook (cons c cs)

-- No entry of the registry has the number.
abbrev pub IsMissing : List BlockInfo → ℤ → Type 0
IsMissing br n = All (λ b. b.block_n ≢ n) br

-- A block with a number that the full registry does not have, and a `Pr/` or `To/` in it.
pub record Overfull (p : Payload) (cs : Nodes) (br : List BlockInfo) : Type 0 where
  pub block : p.kind ≡ node_block
  pub missing : IsMissing br p.block_n
  pub full : 512 ≤ length br
  pub looks : HasLook cs

true-ne-false : true ≡ false → ⊥
true-ne-false e = cc

is_block-kind : (k : NodeKind) → is_block k ≡ true → k ≡ node_block
is_block-kind k e = ground arith

is_pr-kind : (k : NodeKind) → is_pr k ≡ true → k ≡ node_pr
is_pr-kind k e = ground arith

is_to-kind : (k : NodeKind) → is_to k ≡ true → k ≡ node_to
is_to-kind k e = ground arith

looks_at_block-HasLook : (cs : Nodes) → looks_at_block cs ≡ true → HasLook cs
unfolding looks_at_block
looks_at_block-HasLook nil h = absurd (true-ne-false (sym h))
looks_at_block-HasLook (cons c cs) h = elim (Bool-cases (is_pr (payload c).kind)) [
  | inl e ↦ by_pr (is_pr-kind (payload c).kind e)
  | inr e ↦ elim (Bool-cases (is_to (payload c).kind)) [
    | inl k ↦ by_to (is_to-kind (payload c).kind k)
    | inr k ↦ later (looks_at_block-HasLook cs (rw (e, k) at h))
  ]
]

HasLook-looks_at_block : (cs : Nodes) → HasLook cs → looks_at_block cs ≡ true
unfolding looks_at_block
HasLook-looks_at_block nil h = elim h [ ]
HasLook-looks_at_block (cons c cs) (by_pr e) = rw e refl
HasLook-looks_at_block (cons c cs) (by_to e) = rw e refl
HasLook-looks_at_block (cons c cs) (later h) = rw (HasLook-looks_at_block cs h) (ground arith)

find_from-IsMissing :
    (br : List BlockInfo) (i : ℕ) (n : ℤ) → find_from br i n ≡ none → IsMissing br n
unfolding find_from
find_from-IsMissing [] i n h = tt
find_from-IsMissing (b ∷ bs) i n h = elim (Bool-cases (int_eq b.block_n n)) [
  | inl e ↦ let k = rw e at h in cc
  | inr e ↦ (
    λ same. true-ne-false (sym ((int_eq_iff b.block_n n).1 same) ∙ e),
    find_from-IsMissing bs (suc i) n (rw e at h),
  )
]

IsMissing-find_from :
    (br : List BlockInfo) (i : ℕ) (n : ℤ) → IsMissing br n → find_from br i n ≡ none
unfolding find_from
IsMissing-find_from [] i n h = refl
IsMissing-find_from (b ∷ bs) i n h = elim (Bool-cases (int_eq b.block_n n)) [
  | inl e ↦ absurd (h.0 ((int_eq_iff b.block_n n).0 e))
  | inr e ↦ rw e (IsMissing-find_from bs (suc i) n h.1)
]

add_block-none : (br : List BlockInfo) (n : ℤ) → (add_block br n).0 ≡ none → 512 ≤ length br
add_block-none br n h = elim (Bool-cases (leb 512 (length br))) [
  | inl full ↦ ground arith
  | inr room ↦ let e = rw room at h in cc
]

or_add-none :
    (br : List BlockInfo) (n : ℤ) (o : Option ℕ)
    → (or_add br n o).0 ≡ none
    → (o ≡ none) × (512 ≤ length br)
or_add-none br n none h = (refl, add_block-none br n h)
or_add-none br n (some i) h = cc

scanned-null :
    (p : Payload) (cs : Nodes) (st : SymTable) (o : Option ℕ) (br : List BlockInfo)
    → scanned p cs st o br ≡ null_block p.line
    → (o ≡ none) × (looks_at_block cs ≡ true)
scanned-null p cs st none br h = ground arith
scanned-null p cs st (some i) br h = cc

collect_block-Overfull :
    (p : Payload) (cs : Nodes) (st : SymTable) (br : List BlockInfo)
    → collect_block p cs st br ≡ null_block p.line
    → Overfull p cs br
unfolding collect_block breg_get_or_create breg_find
collect_block-Overfull p cs st br h = elim (Bool-cases (is_block p.kind)) [
  | inr off ↦ let e = rw off at h in cc
  | inl on ↦
      let s = scanned-null p cs _ (breg_get_or_create br p.block_n).0 _ (rw on at h) in
      let o = or_add-none br p.block_n (breg_find br p.block_n) s.0 in
      record {
        block = is_block-kind p.kind on;
        missing = find_from-IsMissing br 0 p.block_n o.0;
        full = o.1;
        looks = looks_at_block-HasLook cs s.1;
      }
]

Overfull-collect_block :
    (p : Payload) (cs : Nodes) (st : SymTable) (br : List BlockInfo)
    → Overfull p cs br
    → collect_block p cs st br ≡ null_block p.line
unfolding collect_block breg_get_or_create breg_find
Overfull-collect_block p cs st br o =
    let on : leb 512 (length br) ≡ true = let f = o.full in ground arith in
    let kind : is_block p.kind ≡ true = rw o.block refl in
    let absent = IsMissing-find_from br 0 p.block_n o.missing in
    rw (kind, absent, on, HasLook-looks_at_block cs o.looks) refl

-- The pass follows a null pointer at a node exactly when it is a block with a number that the full
-- registry, of 512 blocks or more, does not have, and a child of it is a `Pr/` or a `To/`.
pub collect_block-null_iff :
    (p : Payload) (cs : Nodes) (st : SymTable) (br : List BlockInfo)
    → (collect_block p cs st br ≡ null_block p.line) ↔ Overfull p cs br
collect_block-null_iff p cs st br =
    (collect_block-Overfull p cs st br, Overfull-collect_block p cs st br)
