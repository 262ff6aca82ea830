-- ===== src/X86/Link/Globals.antt =====
-- Where the instructions of src/x86.c on global variables read and write.
use mathlib.Core.List.{Memᴰ}
use lu_language.Prelude.{
  ℕ, ◌+◌, ◌-◌, ◌*◌, ◌⊎◌, ◌≤◌, ◌<◌, ℤ, Bytes, List, true, false, [], ◌∷◌, ◌++◌, append-nil, length,
  length-append, leb, ◌==◌, ◌≡◌, refl, ap, ◌∙◌, sym, inl, inr, Bool-cases, arith,
}
use lu_language.X86.Word.{imm8_ok}
use lu_language.X86.Types.{ValueType, is_byte_like, size_of}
use lu_language.X86.Encode.{high, low, rex_nw}
use lu_language.X86.Code.{Fix, X, emit, hole, max_fix, add_dfx, data_operand}
use lu_language.X86.Access.{
  wide_prefix, slot_bytes, slot_opcode, step_opcode, i_load_data_reg, i_store_data_reg,
  slot_operand, slot_imm, i_alu_slot_imm, i_inc_slot, i_dec_slot,
}
use lu_language.X86.Link.{data_va, link}
use lu_language.X86.Link.Steps.{Reach, next, emits, refers, start}
use lu_language.X86.Link.Targets.{destination, destination-data}

Mem-append_last {ℓ} : {A : Type ℓ} (xs : List A) (a : A) → Memᴰ a (xs ++ (a ∷ []))
Mem-append_last [] a = Memᴰ.head refl
Mem-append_last (x ∷ xs) a = Memᴰ.tail (Mem-append_last xs a)

-- An operand of the data with `tail` behind its distance.
operand : Bytes → ℕ → Bytes → X → X
operand opcode doff tail x = emit tail (data_operand opcode doff x)

length-operand :
    (opcode : Bytes) (doff : ℕ) (tail : Bytes) (x : X)
    → length (operand opcode doff tail x).code ≡ length (x.code ++ opcode) + 4 + length tail
unfolding operand data_operand add_dfx
length-operand opcode doff tail x = elim (Bool-cases (leb max_fix (length x.dfix))) [
  | inl e ↦ rw e (
      omega (
        arith,
        length-append ((x.code ++ opcode) ++ hole) tail,
        length-append (x.code ++ opcode) hole,
      ))
  | inr e ↦ rw e (
      omega (
        arith,
        length-append ((x.code ++ opcode) ++ hole) tail,
        length-append (x.code ++ opcode) hole,
      ))
]

abbrev end_of : Bytes → ℕ → Bytes → X → ℕ
end_of opcode doff tail x = length (operand opcode doff tail x).code

operand_noted :
    (opcode : Bytes) (doff : ℕ) (tail : Bytes) (x : X)
    → length x.dfix < max_fix
    → Memᴰ
        (record { at = length (x.code ++ opcode); target = doff })
        (operand opcode doff tail x).dfix
unfolding operand data_operand add_dfx
operand_noted opcode doff tail x room =
    let free : leb max_fix (length x.dfix) ≡ false = ground arith in
    rw free (Mem-append_last x.dfix (record { at = length (x.code ++ opcode); target = doff }))

operand_reached :
    (opcode : Bytes) (doff : ℕ) (tail : Bytes) (x : X)
    → Reach start x
    → Reach start (operand opcode doff tail x)
unfolding operand
operand_reached opcode doff tail x r = next (next r (refers x opcode doff)) (emits _ tail)

destination-operand :
    (opcode : Bytes) (doff : ℕ) (tail : Bytes) (x : X)
    → Reach start x
    → length x.dfix < max_fix
    → end_of opcode doff tail x + doff < 2147471360
    → length tail < 16
    → destination
        (end_of opcode doff tail x - length tail - 4)
        (end_of opcode doff tail x)
        (link (operand opcode doff tail x)).code
      ≡ data_va (end_of opcode doff tail x) + doff + length tail
destination-operand opcode doff tail x r room small few =
    let y = operand opcode doff tail x in
    let f : Fix = record { at = length (x.code ++ opcode); target = doff } in
    let long = length-operand opcode doff tail x in
    let start_at : end_of opcode doff tail x - length tail - 4 ≡ f.at = omega (arith, long) in
    let end_at : end_of opcode doff tail x ≡ f.at + 4 + length tail = omega (arith, long) in
    ap (λ k. destination k (length y.code) (link y).code) start_at
    ∙ ap (λ k. destination f.at k (link y).code) end_at
    ∙ destination-data y f (length tail) (operand_reached opcode doff tail x r)
        (operand_noted opcode doff tail x room) small few

-- A call that writes an operand at an offset of the data, as its last 4 bytes, refers to that offset.
abbrev pub Refers : X → ℕ → Type 0
Refers y doff =
    destination (length y.code - 4) (length y.code) (link y).code ≡ data_va (length y.code) + doff

operand-nil :
    (opcode : Bytes) (doff : ℕ) (x : X) → operand opcode doff [] x ≡ data_operand opcode doff x
unfolding operand
operand-nil opcode doff x =
    let y = data_operand opcode doff x in ap (λ k. record y { code = k }) (append-nil y.code)

exact :
    (opcode : Bytes) (doff : ℕ) (x : X)
    → Reach start x
    → length x.dfix < max_fix
    → length opcode ≤ 5
    → length x.code + doff < 2147471300
    → Refers (data_operand opcode doff x) doff
exact opcode doff x r room short small =
    let y = operand opcode doff [] x in
    let long : length y.code ≡ length x.code + length opcode + 4 =
      omega (arith, length-operand opcode doff [] x, length-append x.code opcode) in
    let at : length y.code - 4 ≡ length y.code - 0 - 4 = omega arith in
    rw (sym (operand-nil opcode doff x)) (
      ap (λ k. destination k (length y.code) (link y).code) at
      ∙ destination-operand opcode doff [] x r room (omega (arith, long, short, small))
          (omega arith)
      ∙ omega arith)

length-rex_nw : (r b : ℕ) → length (rex_nw r b) ≤ 1
unfolding rex_nw
length-rex_nw r b = elim (Bool-cases (0x40 + 4 * high r + high b == 0x40)) [
  | inl e ↦ rw e (omega arith)
  | inr e ↦ rw e (omega arith)
]

-- The prefixes before ModRM are short.
short_prefix :
    (r b : ℕ) (opcode : Bytes) (m : ℕ)
    → length opcode ≤ 2
    → length ((rex_nw r b ++ opcode) ++ (m ∷ [])) ≤ 5
short_prefix r b opcode m h = omega (
  arith,
  h,
  length-rex_nw r b,
  length-append (rex_nw r b) opcode,
  length-append (rex_nw r b ++ opcode) (m ∷ []),
)

length-wide_prefix : (t : ValueType) → length (wide_prefix t) ≤ 1
length-wide_prefix t = elim (Bool-cases (slot_bytes t == 8)) [
  | inl e ↦ rw e (omega arith)
  | inr e ↦ rw e (omega arith)
]

length-slot_imm :
    (t : ValueType) (v : ℤ) → (length (slot_imm t v) ≡ 1) ⊎ (length (slot_imm t v) ≡ 4)
length-slot_imm t v = elim (Bool-cases (slot_bytes t == 1)) [
  | inl e ↦ rw e (inl refl)
  | inr e ↦ elim (Bool-cases (imm8_ok v)) [
    | inl k ↦ rw (e, k) (inl refl)
    | inr k ↦ rw (e, k) (inr refl)
  ]
]

slot_prefix :
    (t : ValueType) (opcode m : ℕ) → length ((wide_prefix t ++ (opcode ∷ [])) ++ (m ∷ [])) ≤ 3
slot_prefix t opcode m = omega (
  arith,
  length-wide_prefix t,
  length-append (wide_prefix t) (opcode ∷ []),
  length-append (wide_prefix t ++ (opcode ∷ [])) (m ∷ []),
)

module _ (x : X) (doff : ℕ) (t : ValueType) (r : Reach start x) (room : length x.dfix < max_fix)
    (small : length x.code + doff < 2147471300) where
  -- In any state with room in the table of relocations and with code and data of less than 2^31
  -- bytes less four pages, the load of a global variable of any type, once linked, refers to it.
  pub i_load_data_reg-Refers : (reg : ℕ) → Refers (i_load_data_reg reg doff t x) doff
  unfolding i_load_data_reg
  i_load_data_reg-Refers reg = elim (Bool-cases (is_byte_like t)) [
    | inl e ↦
        rw e (exact _ doff x r room (short_prefix reg 0 (0x0F ∷ 0xB6 ∷ []) _ (omega arith)) small)
    | inr e ↦ elim (Bool-cases (size_of t == 8)) [
      | inl k ↦ rw (e, k) (exact _ doff x r room (omega arith) small)
      | inr k ↦ rw (e, k) (exact _ doff x r room (omega arith) small)
    ]
  ]

  pub i_store_data_reg-Refers : (reg : ℕ) → Refers (i_store_data_reg doff t reg x) doff
  unfolding i_store_data_reg
  i_store_data_reg-Refers reg = elim (Bool-cases (is_byte_like t)) [
    | inl e ↦ rw e (exact _ doff x r room (short_prefix reg 0 (0x88 ∷ []) _ (omega arith)) small)
    | inr e ↦ elim (Bool-cases (size_of t == 8)) [
      | inl k ↦ rw (e, k) (exact _ doff x r room (omega arith) small)
      | inr k ↦
          rw (e, k) (exact _ doff x r room (short_prefix reg 0 (0x89 ∷ []) _ (omega arith)) small)
    ]
  ]

  pub i_inc_slot-Refers : Refers (i_inc_slot true doff t x) doff
  unfolding i_inc_slot slot_operand
  i_inc_slot-Refers = exact _ doff x r room (omega (arith, slot_prefix t (step_opcode t) 5)) small

  pub i_dec_slot-Refers : Refers (i_dec_slot true doff t x) doff
  unfolding i_dec_slot slot_operand
  i_dec_slot-Refers = exact _ doff x r room (omega (arith, slot_prefix t (step_opcode t) 13)) small

  -- The change of a global variable by an immediate, once linked, refers to an address past the
  -- variable: by the bytes of the immediate, 1 or 4, that the instruction has behind the distance.
  pub i_alu_slot_imm-past :
      (digit : ℕ) (v : ℤ)
      → (destination
            (length (i_alu_slot_imm true doff t digit v x).code - length (slot_imm t v) - 4)
            (length (i_alu_slot_imm true doff t digit v x).code)
            (link (i_alu_slot_imm true doff t digit v x)).code
          ≡ data_va (length (i_alu_slot_imm true doff t digit v x).code)
            + doff
            + length (slot_imm t v))
        × ((length (slot_imm t v) ≡ 1) ⊎ (length (slot_imm t v) ≡ 4))
  unfolding i_alu_slot_imm slot_operand operand
  i_alu_slot_imm-past digit v =
      let opcode : Bytes =
        (wide_prefix t ++ (slot_opcode t v ∷ [])) ++ ((8 * low digit + 5) ∷ []) in
      let tail = slot_imm t v in
      let one_or_four = length-slot_imm t v in
      let short = slot_prefix t (slot_opcode t v) (8 * low digit + 5) in
      let long = length-operand opcode doff tail x in
      (
        destination-operand opcode doff tail x r room
            (omega (arith, long, short, small, one_or_four, length-append x.code opcode))
            (omega (arith, one_or_four)),
        one_or_four,
      )
