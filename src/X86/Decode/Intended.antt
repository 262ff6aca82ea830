-- ===== src/X86/Decode/Intended.antt =====
-- The instructions that the encoder of src/x86.c is to write, call by call: the function's name,
-- its arguments, and the fields of the instruction that its comment names.
use lu_language.Prelude.{ℕ, ◌+◌, ◌<◌, ℤ, pos, Bytes, ◌||◌, ◌==◌, if◌then◌else◌}
use lu_language.X86.Types.{ValueType, is_byte_like, size_of}
use lu_language.X86.Word.{IsInt32, neg, imm8_ok}
use lu_language.X86.Encode.{
  i_mov_reg_reg, i_mov_reg_mem, i_mov_mem_reg, i_lea_mem, i_xor_reg_reg, i_sub_reg_reg,
  i_add_reg_reg, i_inc_reg, i_dec_reg, i_neg_reg, i_not_reg, i_mul_reg, i_imul_rax_reg,
  i_cmp_reg_reg,
}
use lu_language.X86.Encode.Slots.{i_store_slot_reg, i_load_slot_reg}
use lu_language.X86.Encode.Alu.{i_alu_reg_imm, i_imul_reg_imm, i_cmp_reg_imm}
use lu_language.X86.Decode.{reg, mem, Insn}
use lu_language.X86.Decode.Forms.{wide_insn, narrow_insn}

pub data Call : Type 0 where
  mov_reg_reg xor_reg_reg sub_reg_reg add_reg_reg cmp_reg_reg : ℕ → ℕ → Call
  inc_reg dec_reg neg_reg not_reg mul_reg imul_rax_reg : ℕ → Call
  mov_reg_mem : ℕ → ℤ → Call
  mov_mem_reg : ℤ → ℕ → Call
  lea_mem : ℕ → ℤ → Call
  imul_reg_imm : ℕ → ℤ → Call
  alu_reg_imm : ℕ → ℕ → ℤ → Call
  cmp_reg_imm : ℕ → ℤ → Call
  load_slot_reg : ℕ → ℤ → ValueType → Call
  store_slot_reg : ℤ → ValueType → ℕ → Call

abbrev pub encode : Call → Bytes
encode (mov_reg_reg dst src) = i_mov_reg_reg dst src
encode (xor_reg_reg dst src) = i_xor_reg_reg dst src
encode (sub_reg_reg dst src) = i_sub_reg_reg dst src
encode (add_reg_reg dst src) = i_add_reg_reg dst src
encode (cmp_reg_reg a b) = i_cmp_reg_reg a b
encode (inc_reg r) = i_inc_reg r
encode (dec_reg r) = i_dec_reg r
encode (neg_reg r) = i_neg_reg r
encode (not_reg r) = i_not_reg r
encode (mul_reg r) = i_mul_reg r
encode (imul_rax_reg r) = i_imul_rax_reg r
encode (mov_reg_mem r d) = i_mov_reg_mem r d
encode (mov_mem_reg d r) = i_mov_mem_reg d r
encode (lea_mem r d) = i_lea_mem r d
encode (imul_reg_imm r v) = i_imul_reg_imm r v
encode (alu_reg_imm op r v) = i_alu_reg_imm op r v
encode (cmp_reg_imm r v) = i_cmp_reg_imm r v
encode (load_slot_reg r d t) = i_load_slot_reg r d t
encode (store_slot_reg d t r) = i_store_slot_reg d t r

-- 0x81 and 0x83 are the arithmetic of the reg field with an immediate.
abbrev pub imm_opcode : ℤ → ℕ
imm_opcode v = if imm8_ok v then 0x83 else 0x81

-- Loads extend to the register: 0F B6 a byte by zeros, 8B 64 bits, REX.W 63 32 bits by the sign.
abbrev pub load : ℕ → ℤ → ValueType → Insn
load r d t =
    if is_byte_like t
    then narrow_insn (256 + 0xB6) r (mem 5 d) (pos 0)
    else if size_of t == 8
    then wide_insn 0x8B r (mem 5 d) (pos 0)
    else wide_insn 0x63 r (mem 5 d) (pos 0)

-- Stores write 32 bits or 64.
abbrev pub store : ℤ → ValueType → ℕ → Insn
store d t r =
    if is_byte_like t || size_of t == 4
    then narrow_insn 0x89 r (mem 5 d) (pos 0)
    else wide_insn 0x89 r (mem 5 d) (pos 0)

abbrev pub intended : Call → Insn
intended (mov_reg_reg dst src) = wide_insn 0x89 src (reg dst) (pos 0)
intended (xor_reg_reg dst src) = wide_insn 0x31 src (reg dst) (pos 0)
intended (sub_reg_reg dst src) = wide_insn 0x29 src (reg dst) (pos 0)
intended (add_reg_reg dst src) = wide_insn 0x01 src (reg dst) (pos 0)
intended (cmp_reg_reg a b) = wide_insn 0x39 b (reg a) (pos 0)
intended (inc_reg r) = wide_insn 0xFF 0 (reg r) (pos 0)
intended (dec_reg r) = wide_insn 0xFF 1 (reg r) (pos 0)
intended (neg_reg r) = wide_insn 0xF7 3 (reg r) (pos 0)
intended (not_reg r) = wide_insn 0xF7 2 (reg r) (pos 0)
intended (mul_reg r) = wide_insn 0xF7 4 (reg r) (pos 0)
intended (imul_rax_reg r) = wide_insn 0xF7 5 (reg r) (pos 0)
intended (mov_reg_mem r d) = wide_insn 0x8B r (mem 5 d) (pos 0)
intended (mov_mem_reg d r) = wide_insn 0x89 r (mem 5 d) (pos 0)
intended (lea_mem r d) = wide_insn 0x8D r (mem 5 (neg d)) (pos 0)
intended (imul_reg_imm r v) = wide_insn 0x69 r (reg r) v
intended (alu_reg_imm op r v) = wide_insn (imm_opcode v) op (reg r) v
intended (cmp_reg_imm r v) = wide_insn (imm_opcode v) 7 (reg r) v
intended (load_slot_reg r d t) = load r (neg d) t
intended (store_slot_reg d t r) = store (neg d) t r

-- Registers below 16, and displacements and immediates of 32 bits.
abbrev pub InRange : Call → Type 0
InRange (mov_reg_reg dst src) = (dst < 16) × (src < 16)
InRange (xor_reg_reg dst src) = (dst < 16) × (src < 16)
InRange (sub_reg_reg dst src) = (dst < 16) × (src < 16)
InRange (add_reg_reg dst src) = (dst < 16) × (src < 16)
InRange (cmp_reg_reg a b) = (a < 16) × (b < 16)
InRange (inc_reg r) = r < 16
InRange (dec_reg r) = r < 16
InRange (neg_reg r) = r < 16
InRange (not_reg r) = r < 16
InRange (mul_reg r) = r < 16
InRange (imul_rax_reg r) = r < 16
InRange (mov_reg_mem r d) = (r < 16) × IsInt32 d
InRange (mov_mem_reg d r) = (r < 16) × IsInt32 d
InRange (lea_mem r d) = (r < 16) × IsInt32 (neg d)
InRange (imul_reg_imm r v) = (r < 16) × IsInt32 v
InRange (alu_reg_imm op r v) = (op < 8) × ((r < 16) × IsInt32 v)
InRange (cmp_reg_imm r v) = (r < 16) × IsInt32 v
InRange (load_slot_reg r d t) = (r < 16) × IsInt32 (neg d)
InRange (store_slot_reg d t r) = (r < 16) × IsInt32 (neg d)
