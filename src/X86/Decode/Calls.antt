-- ===== src/X86/Decode/Calls.antt =====
-- The encoder of src/x86.c against the decoder.
use lu_language.Prelude.{
  ℕ, ◌<◌, ℤ, Bytes, ◌||◌, ◌∷◌, ◌++◌, Option, some, ◌==◌, ◌≡◌, refl, ap, ◌∙◌, append_assoc, inl, inr,
  Bool-cases, arith,
}
use lu_language.X86.Types.{ValueType, is_byte_like, size_of}
use lu_language.X86.Word.{IsInt32, neg, imm8_ok}
use lu_language.X86.Encode.{
  rex_w, rex_nw, modrm_rr, modrm_mem, e8, e32, i_mov_reg_reg, i_mov_reg_mem, i_mov_mem_reg,
  i_lea_mem, i_xor_reg_reg, i_sub_reg_reg, i_add_reg_reg, i_inc_reg, i_dec_reg, i_neg_reg,
  i_not_reg, i_mul_reg, i_imul_rax_reg, i_cmp_reg_reg,
}
use lu_language.X86.Encode.Slots.{i_store_slot_reg, i_load_slot_reg}
use lu_language.X86.Encode.Alu.{i_alu_reg_imm, i_imul_reg_imm, i_cmp_reg_imm}
use lu_language.X86.Decode.{reg, Insn, decode}
use lu_language.X86.Decode.Forms.{
  wide_insn, decode_rr, decode_rr_imm8, decode_rr_imm32, decode_rbp, decode_rbp_narrow,
  decode_rbp_narrow_two,
}
use lu_language.X86.Decode.Intended.{
  Call, mov_reg_reg, xor_reg_reg, sub_reg_reg, add_reg_reg, cmp_reg_reg, inc_reg, dec_reg, neg_reg,
  not_reg, mul_reg, imul_rax_reg, mov_reg_mem, mov_mem_reg, lea_mem, imul_reg_imm, alu_reg_imm,
  cmp_reg_imm, load_slot_reg, store_slot_reg, encode, intended, InRange, imm_opcode, load, store,
}

-- An opcode's digit needs no bit of the prefix.
rex_w_digit :
    (digit r opcode : ℕ) (cs : Bytes) (out : Option (Insn × Bytes))
    → digit < 8
    → decode (rex_w digit r ∷ opcode ∷ cs) ≡ out
    → decode (rex_w 0 r ∷ opcode ∷ cs) ≡ out
rex_w_digit digit r opcode cs out h e =
    let same : rex_w 0 r ≡ rex_w digit r = omega arith in
    ap (λ k. decode (k ∷ opcode ∷ cs)) same ∙ e

-- A call of the arithmetic of a register with an immediate, in either form.
decode_alu_imm :
    (op r : ℕ) (v : ℤ) (cs : Bytes)
    → op < 8
    → r < 16
    → IsInt32 v
    → decode (i_alu_reg_imm op r v ++ cs) ≡ some (wide_insn (imm_opcode v) op (reg r) v, cs)
unfolding i_alu_reg_imm
decode_alu_imm op r v cs ho hr hv = elim (Bool-cases (imm8_ok v)) [
  | inl small ↦
      rw (small, append_assoc (modrm_rr op r) (e8 v) cs)
        (rex_w_digit op r 0x83 _ _ ho
          (decode_rr_imm8 0x83 op cs refl (omega arith) r v refl hr small))
  | inr large ↦
      rw (large, append_assoc (modrm_rr op r) (e32 v) cs)
        (rex_w_digit op r 0x81 _ _ ho
          (decode_rr_imm32 0x81 op cs refl (omega arith) r v refl hr hv))
]

decode-load :
    (r : ℕ) (d : ℤ) (t : ValueType) (cs : Bytes)
    → r < 16
    → IsInt32 (neg d)
    → decode (i_load_slot_reg r d t ++ cs) ≡ some (load r (neg d) t, cs)
unfolding i_load_slot_reg
decode-load r d t cs hr hd = elim (Bool-cases (is_byte_like t)) [
  | inl byte ↦
      rw (byte, append_assoc (rex_nw r 5) (0x0F ∷ 0xB6 ∷ modrm_mem r 5 (neg d)) cs)
        (decode_rbp_narrow_two 0xB6 r cs refl hr (neg d) (ground arith) hd)
  | inr other ↦ elim (Bool-cases (size_of t == 8)) [
    | inl eight ↦ rw (other, eight) (decode_rbp 0x8B r cs refl hr (neg d) (ground arith) hd)
    | inr four ↦ rw (other, four) (decode_rbp 0x63 r cs refl hr (neg d) (ground arith) hd)
  ]
]

decode-store :
    (r : ℕ) (d : ℤ) (t : ValueType) (cs : Bytes)
    → r < 16
    → IsInt32 (neg d)
    → decode (i_store_slot_reg d t r ++ cs) ≡ some (store (neg d) t r, cs)
unfolding i_store_slot_reg
decode-store r d t cs hr hd = elim (Bool-cases (is_byte_like t || size_of t == 4)) [
  | inl narrow ↦
      rw (narrow, append_assoc (rex_nw r 5) (0x89 ∷ modrm_mem r 5 (neg d)) cs)
        (decode_rbp_narrow 0x89 r cs refl hr (neg d) refl (ground arith) hd)
  | inr wide ↦ rw wide (decode_rbp 0x89 r cs refl hr (neg d) (ground arith) hd)
]

-- For the calls below, with registers below 16 and numbers of 32 bits, the bytes that the encoder
-- appends are read back as the instruction intended by that call, whatever bytes follow: opcode,
-- operand width, both registers or the slot, and the number, in full.
pub decode-encode :
    (c : Call) (rest : Bytes) → InRange c → decode (encode c ++ rest) ≡ some (intended c, rest)
unfolding i_mov_reg_reg i_xor_reg_reg i_sub_reg_reg i_add_reg_reg i_cmp_reg_reg i_inc_reg i_dec_reg
    i_neg_reg i_not_reg i_mul_reg i_imul_rax_reg i_mov_reg_mem i_mov_mem_reg i_lea_mem
    i_imul_reg_imm i_cmp_reg_imm i_alu_reg_imm
decode-encode (mov_reg_reg dst src) rest h = decode_rr 0x89 src rest refl h.1 dst refl h.0
decode-encode (xor_reg_reg dst src) rest h = decode_rr 0x31 src rest refl h.1 dst refl h.0
decode-encode (sub_reg_reg dst src) rest h = decode_rr 0x29 src rest refl h.1 dst refl h.0
decode-encode (add_reg_reg dst src) rest h = decode_rr 0x01 src rest refl h.1 dst refl h.0
decode-encode (cmp_reg_reg a b) rest h = decode_rr 0x39 b rest refl h.1 a refl h.0
decode-encode (inc_reg r) rest h = decode_rr 0xFF 0 rest refl (omega arith) r refl h
decode-encode (dec_reg r) rest h =
    rex_w_digit 1 r 0xFF _ _ (omega arith) (decode_rr 0xFF 1 rest refl (omega arith) r refl h)
decode-encode (neg_reg r) rest h =
    rex_w_digit 3 r 0xF7 _ _ (omega arith) (decode_rr 0xF7 3 rest refl (omega arith) r refl h)
decode-encode (not_reg r) rest h =
    rex_w_digit 2 r 0xF7 _ _ (omega arith) (decode_rr 0xF7 2 rest refl (omega arith) r refl h)
decode-encode (mul_reg r) rest h =
    rex_w_digit 4 r 0xF7 _ _ (omega arith) (decode_rr 0xF7 4 rest refl (omega arith) r refl h)
decode-encode (imul_rax_reg r) rest h =
    rex_w_digit 5 r 0xF7 _ _ (omega arith) (decode_rr 0xF7 5 rest refl (omega arith) r refl h)
decode-encode (mov_reg_mem r d) rest h = decode_rbp 0x8B r rest refl h.0 d (ground arith) h.1
decode-encode (mov_mem_reg d r) rest h = decode_rbp 0x89 r rest refl h.0 d (ground arith) h.1
decode-encode (lea_mem r d) rest h = decode_rbp 0x8D r rest refl h.0 (neg d) (ground arith) h.1
decode-encode (imul_reg_imm r v) rest h =
    rw (append_assoc (modrm_rr r r) (e32 v) rest)
      (decode_rr_imm32 0x69 r rest refl h.0 r v (ground arith) h.0 h.1)
decode-encode (alu_reg_imm op r v) rest h = decode_alu_imm op r v rest h.0 h.1.0 h.1.1
decode-encode (cmp_reg_imm r v) rest h = decode_alu_imm 7 r v rest (omega arith) h.0 h.1
decode-encode (load_slot_reg r d t) rest h = decode-load r d t rest h.0 h.1
decode-encode (store_slot_reg d t r) rest h = decode-store r d t rest h.0 h.1
