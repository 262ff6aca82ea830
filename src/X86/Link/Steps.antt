-- ===== src/X86/Link/Steps.antt =====
-- How the state of src/x86.c comes about: the operations that append code, place labels and note
-- relocations, in any order.
use lu_language.Prelude.{
  ℕ, zero, suc, ◌+◌, ◌%◌, ◌≤◌, ◌==◌, Bytes, List, false, [], ◌∷◌, ◌++◌, length, length-append, leb,
  ltb, All, All-append, ◌≡◌, inl, inr, Bool-cases, arith,
}
use lu_language.X86.Code.{
  Fix, X, emit, xfail, new_label, place_label, max_label, pad_on, align_loop, max_fix, add_cfix,
  add_dfx, add_gdfx, data_write, hole, branch, data_operand, data_alloc, data_align, data_bytes,
  data_str,
}
use lu_language.X86.Link.Patch.{Rising, Inside, Beside, Rising-wider, Rising-add, Rising-Inside}

-- The relocations of the code, of calls and jumps in one table and of operands in the data in the
-- other, lie in the code; the two tables rise and have no byte in common; and the labels lie in the
-- code.
pub record IsLinkable (x : X) : Type 0 where
  pub calls_rise : Rising 0 x.cfix (length x.code)
  pub data_rises : Rising 0 x.dfix (length x.code)
  pub beside : All (λ f. All (Beside f) x.dfix) x.cfix
  pub labels_inside : (l : ℕ) → x.label_pos l ≤ length x.code

abbrev pub start : X
start = record {
  code = [];
  data_buf = [];
  label_pos = λ l. 0;
  nlabels = 0;
  cfix = [];
  dfix = [];
  gdfix = [];
  failed = false;
}

pub data Step : X → X → Type 0 where
  emits : (x : X) (bytes : Bytes) → Step x (emit bytes x)
  aligns : (x : X) → Step x (align_loop x)
  makes_label : (x : X) → Step x (new_label x).1
  places : (x : X) (l : ℕ) → Step x (place_label l x)
  branches : (x : X) (opcode : Bytes) (l : ℕ) → Step x (branch opcode l x)
  refers : (x : X) (opcode : Bytes) (doff : ℕ) → Step x (data_operand opcode doff x)
  allocates : (x : X) (n : ℕ) → Step x (data_alloc n x).1
  stores : (x : X) (s : Bytes) → Step x (data_str s x).1
  writes : (x : X) (off : ℕ) (value : Bytes) → Step x (data_write off value x)
  points : (x : X) (off doff : ℕ) → Step x (add_gdfx off doff x)

pub data Reach (s : X) : X → Type 0 where
  here : Reach s s
  next : {t u : X} → Reach s t → Step t u → Reach s u

pub start-IsLinkable : IsLinkable start
start-IsLinkable = record {
  calls_rise = omega arith;
  data_rises = omega arith;
  beside = tt;
  labels_inside = λ l. omega arith;
}

-- More code behind the old.
grown :
    (x : X) (code : Bytes)
    → length x.code ≤ length code
    → IsLinkable x
    → IsLinkable (record x { code = code })
grown x code w h = record {
  calls_rise = Rising-wider 0 (length x.code) (length code) x.cfix w h.calls_rise;
  data_rises = Rising-wider 0 (length x.code) (length code) x.dfix w h.data_rises;
  beside = h.beside;
  labels_inside = λ l. omega (arith, w, h.labels_inside l);
}

emit-IsLinkable : (x : X) (bytes : Bytes) → IsLinkable x → IsLinkable (emit bytes x)
emit-IsLinkable x bytes h = grown x (x.code ++ bytes) (omega (arith, length-append x.code bytes)) h

length-pad_on : (fuel n b : ℕ) (buf : Bytes) → length buf ≤ length (pad_on fuel n b buf)
unfolding pad_on
length-pad_on zero n b buf = omega arith
length-pad_on (suc fuel) n b buf = elim (Bool-cases (length buf % n == 0)) [
  | inl e ↦ rw e (omega arith)
  | inr e ↦
      rw e (omega (arith, length-append buf (b ∷ []), length-pad_on fuel n b (buf ++ (b ∷ []))))
]

failed-IsLinkable : (x : X) → IsLinkable x → IsLinkable (xfail x)
failed-IsLinkable x h = record {
  calls_rise = h.calls_rise;
  data_rises = h.data_rises;
  beside = h.beside;
  labels_inside = h.labels_inside;
}

place_label-IsLinkable : (x : X) (l : ℕ) → IsLinkable x → IsLinkable (place_label l x)
unfolding place_label
place_label-IsLinkable x l h = elim (Bool-cases (ltb l max_label)) [
  | inl e ↦ rw e (record {
    calls_rise = h.calls_rise;
    data_rises = h.data_rises;
    beside = h.beside;
    labels_inside = λ i. elim (Bool-cases (i == l)) [
      | inl same ↦ rw same (omega arith)
      | inr other ↦ rw other (h.labels_inside i)
    ];
  })
  | inr e ↦ rw e h
]

new_label-IsLinkable : (x : X) → IsLinkable x → IsLinkable (new_label x).1
unfolding new_label
new_label-IsLinkable x h = elim (Bool-cases (leb max_label x.nlabels)) [
  | inl e ↦ rw e (failed-IsLinkable x h)
  | inr e ↦ rw e (record {
    calls_rise = h.calls_rise;
    data_rises = h.data_rises;
    beside = h.beside;
    labels_inside = h.labels_inside;
  })
]

Beside-end : (fixes : List Fix) (f : Fix) → All (Inside f.at) fixes → All (Beside f) fixes
Beside-end [] f h = tt
Beside-end (g ∷ fixes) f h = (inr h.0, Beside-end fixes f h.1)

Beside-more :
    (calls fixes : List Fix) (f : Fix)
    → All (Inside f.at) calls
    → All (λ g. All (Beside g) fixes) calls
    → All (λ g. All (Beside g) (fixes ++ (f ∷ []))) calls
Beside-more [] fixes f h b = tt
Beside-more (g ∷ calls) fixes f h b =
    (All-append (Beside g) fixes (f ∷ []) b.0 (inl h.0, tt), Beside-more calls fixes f h.1 b.1)

-- The slot's four bytes end the code.
ends : (code : Bytes) → length (code ++ hole) ≡ length code + 4
ends code = omega (arith, length-append code hole)

add_cfix-IsLinkable :
    (y : X) (l : ℕ) → IsLinkable y → IsLinkable (add_cfix (length y.code) l (emit hole y))
unfolding add_cfix
add_cfix-IsLinkable y l h =
    let z = emit-IsLinkable y hole h in
    let f : Fix = record { at = length y.code; target = l } in
    elim (Bool-cases (leb max_fix (length y.cfix))) [
      | inl e ↦ rw e (failed-IsLinkable (emit hole y) z)
      | inr e ↦ rw e (record {
        calls_rise =
            rw (ends y.code) (Rising-add 0 (length y.code) y.cfix f (omega arith) h.calls_rise);
        data_rises = z.data_rises;
        beside =
            All-append (λ g. All (Beside g) y.dfix) y.cfix (f ∷ []) h.beside
              (Beside-end y.dfix f (Rising-Inside 0 (length y.code) y.dfix h.data_rises), tt);
        labels_inside = z.labels_inside;
      })
    ]

add_dfx-IsLinkable :
    (y : X) (doff : ℕ) → IsLinkable y → IsLinkable (add_dfx (length y.code) doff (emit hole y))
unfolding add_dfx
add_dfx-IsLinkable y doff h =
    let z = emit-IsLinkable y hole h in
    let f : Fix = record { at = length y.code; target = doff } in
    elim (Bool-cases (leb max_fix (length y.dfix))) [
      | inl e ↦ rw e (failed-IsLinkable (emit hole y) z)
      | inr e ↦ rw e (record {
        calls_rise = z.calls_rise;
        data_rises =
            rw (ends y.code) (Rising-add 0 (length y.code) y.dfix f (omega arith) h.data_rises);
        beside =
            Beside-more y.cfix y.dfix f (Rising-Inside 0 (length y.code) y.cfix h.calls_rise)
              h.beside;
        labels_inside = z.labels_inside;
      })
    ]

-- The data section is apart from all that.
with_data : (x : X) (bytes : Bytes) → IsLinkable x → IsLinkable (record x { data_buf = bytes })
with_data x bytes h = record {
  calls_rise = h.calls_rise;
  data_rises = h.data_rises;
  beside = h.beside;
  labels_inside = h.labels_inside;
}

-- The relocations of pointers in the data are apart from it too.
add_gdfx-IsLinkable : (x : X) (off doff : ℕ) → IsLinkable x → IsLinkable (add_gdfx off doff x)
unfolding add_gdfx
add_gdfx-IsLinkable x off doff h = elim (Bool-cases (leb max_fix (length x.gdfix))) [
  | inl e ↦ rw e (failed-IsLinkable x h)
  | inr e ↦ rw e (record {
    calls_rise = h.calls_rise;
    data_rises = h.data_rises;
    beside = h.beside;
    labels_inside = h.labels_inside;
  })
]

-- Each step keeps the invariant.
pub Step-IsLinkable : {x y : X} → Step x y → IsLinkable x → IsLinkable y
unfolding branch data_operand data_alloc data_align data_str data_bytes
Step-IsLinkable (emits x bytes) h = emit-IsLinkable x bytes h
Step-IsLinkable (aligns x) h =
    grown x (pad_on 16 16 0x90 x.code) (length-pad_on 16 16 0x90 x.code) h
Step-IsLinkable (makes_label x) h = new_label-IsLinkable x h
Step-IsLinkable (places x l) h = place_label-IsLinkable x l h
Step-IsLinkable (branches x opcode l) h =
    add_cfix-IsLinkable (emit opcode x) l (emit-IsLinkable x opcode h)
Step-IsLinkable (refers x opcode doff) h =
    add_dfx-IsLinkable (emit opcode x) doff (emit-IsLinkable x opcode h)
Step-IsLinkable (allocates x n) h = with_data x _ h
Step-IsLinkable (stores x s) h = with_data x _ h
Step-IsLinkable (writes x off value) h = with_data x _ h
Step-IsLinkable (points x off doff) h = add_gdfx-IsLinkable x off doff h

-- Whatever operations have run since the start, initial values written into the data and pointers
-- noted there included, the relocations of jumps and calls and those of operands in the data lie in
-- the code, each table in rising order, no two of them share a byte, and every label lies in the
-- code.
pub Reach-IsLinkable : {x : X} → Reach start x → IsLinkable x
Reach-IsLinkable here = start-IsLinkable
Reach-IsLinkable (next r s) = Step-IsLinkable s (Reach-IsLinkable r)
