-- ===== src/X86/Decode/Indexed.antt =====
-- The operands with a scaled index that src/x86.c encodes.
use lu_language.Prelude.{
  ℕ, ◌+◌, ◌*◌, ◌/◌, ◌%◌, ◌≤◌, ◌<◌, ℤ, pos, Bytes, true, false, ◌&&◌, ◌∷◌, ◌++◌, some, ◌==◌, ◌≡◌,
  ◌⊎◌, refl, ap, ◌∙◌, inl, inr, Bool-cases, arith,
}
use lu_language.X86.Word.{IsInt32}
use lu_language.X86.Encode.{high, low, e32}
use lu_language.X86.Encode.Index.{
  scale_bits, mod_of, zero_disp, alu_opcode, i_lea_rcx_regs, i_alu_reg_mem_sib, i_alu_reg_mem_disp,
}
use lu_language.X86.Decode.{
  Rm, mem, sib, Rex, take_rm, imm_bytes, sib_on, scale_of, disp_on, decode,
}
use lu_language.X86.Decode.Fields.{
  bits, low-high, disp32_on-e32, decode-rex, finished-none, take_rm-mem,
}
use lu_language.X86.Decode.Forms.{wide_insn}

-- A factor that an index may have.
abbrev pub IsScale : ℕ → Type 0
IsScale s = (s ≡ 1) ⊎ ((s ≡ 2) ⊎ ((s ≡ 4) ⊎ (s ≡ 8)))

scale_of-scale_bits : (s : ℕ) → IsScale s → scale_of (scale_bits s) ≡ s
scale_of-scale_bits s h = ground arith

disp_on-zero_disp :
    (form : ℕ) (f : ℤ → Rm) (cs : Bytes)
    → form ≤ 2
    → disp_on form f (zero_disp form ++ cs) ≡ some (f (pos 0), cs)
disp_on-zero_disp form f cs h = ground arith

sib_on-fields :
    (rex : Rex) (form base idx scale : ℕ) (cs : Bytes)
    → form ≡ mod_of base
    → base < 16
    → idx < 16
    → (idx == 4) ≡ false
    → IsScale scale
    → rex.b ≡ high base
    → rex.x ≡ high idx
    → sib_on rex form ((64 * scale_bits scale + 8 * low idx + low base) ∷ zero_disp form ++ cs)
      ≡ some (sib base idx scale (pos 0), cs)
sib_on-fields rex form base idx scale cs ef hb hi ni hs eb ex =
    let s : ℕ = 64 * scale_bits scale + 8 * low idx + low base in
    let small : scale_bits scale ≤ 3 = ground arith in
    let idx_at : s / 8 % 8 + 8 * rex.x ≡ idx = omega arith in
    let scale_at : s / 64 ≡ scale_bits scale = omega arith in
    let low_at : s % 8 ≡ low base = omega arith in
    let small_form : form ≤ 2 = ground arith in
    let has_base : ((form == 0) && (low base == 5)) ≡ false = ground arith in
    rw (low_at, has_base, eb, idx_at, ni, scale_at, scale_of-scale_bits scale hs)
      (ap (λ k. disp_on form (λ d. sib k idx scale d) (zero_disp form ++ cs)) (low-high base hb)
        ∙ disp_on-zero_disp form (λ d. sib base idx scale d) cs small_form)

-- The operand of the forms with mod, SIB and no displacement but 0.
take_rm-sib :
    (rex : Rex) (digit base idx scale : ℕ) (cs : Bytes)
    → base < 16
    → idx < 16
    → (idx == 4) ≡ false
    → IsScale scale
    → rex.b ≡ high base
    → rex.x ≡ high idx
    → take_rm rex
        (64 * mod_of base + 8 * low digit + 4)
        ((64 * scale_bits scale + 8 * low idx + low base) ∷ zero_disp (mod_of base) ++ cs)
      ≡ some (sib base idx scale (pos 0), cs)
unfolding take_rm
take_rm-sib rex digit base idx scale cs hb hi ni hs eb ex =
    let m : ℕ = 64 * mod_of base + 8 * low digit + 4 in
    let form_at : m / 64 ≡ mod_of base = ground arith in
    let low_at : m % 8 ≡ 4 = ground arith in
    let small : (mod_of base == 3) ≡ false = ground arith in
    rw (form_at, low_at, small)
      (sib_on-fields rex (mod_of base) base idx scale cs refl hb hi ni hs eb ex)

decode-sib :
    (opcode digit base idx scale : ℕ) (cs : Bytes)
    → (opcode == 0x0F) ≡ false
    → imm_bytes opcode (low digit) ≡ 0
    → digit < 16
    → base < 16
    → idx < 16
    → (idx == 4) ≡ false
    → IsScale scale
    → decode (
        (0x48 + 4 * high digit + 2 * high idx + high base)
          ∷ opcode
          ∷ (64 * mod_of base + 8 * low digit + 4)
          ∷ (64 * scale_bits scale + 8 * low idx + low base)
          ∷ zero_disp (mod_of base)
        ++ cs)
      ≡ some (wide_insn opcode digit (sib base idx scale (pos 0)) (pos 0), cs)
decode-sib opcode digit base idx scale cs plain no_imm hd hb hi ni hs =
    let rex = bits 1 (high digit) (high idx) (high base) in
    let m : ℕ = 64 * mod_of base + 8 * low digit + 4 in
    let prefix : 0x48 + 4 * high digit + 2 * high idx + high base
        ≡ 0x40 + 8 * 1 + 4 * high digit + 2 * high idx + high base =
      omega arith in
    let small : mod_of base ≤ 2 = ground arith in
    let digit_at : m / 8 % 8 ≡ low digit = omega arith in
    ap
      (λ k. decode (
        k ∷ opcode ∷ m ∷ (64 * scale_bits scale + 8 * low idx + low base) ∷ zero_disp (mod_of base)
        ++ cs))
      prefix
    ∙ decode-rex 1 (high digit) (high idx) (high base) opcode m _ _ cs (omega arith) (omega arith)
        (omega arith) (omega arith) plain
        (take_rm-sib rex digit base idx scale cs hb hi ni hs refl refl)
    ∙ finished-none rex opcode digit m (sib base idx scale (pos 0)) hd refl digit_at cs no_imm

alu_opcode-plain :
    (digit : ℕ) → ((alu_opcode digit == 0x0F) ≡ false) × (imm_bytes (alu_opcode digit) 0 ≡ 0)
alu_opcode-plain digit = ground arith

-- `i_alu_reg_mem_sib` is an addition or subtraction of memory at base + index * scale to or from
-- the register that it is given, for every index but rsp.
pub decode-i_alu_reg_mem_sib :
    (digit dst base idx scale : ℕ) (cs : Bytes)
    → dst < 16
    → base < 16
    → idx < 16
    → (idx == 4) ≡ false
    → IsScale scale
    → decode (i_alu_reg_mem_sib digit dst base idx scale ++ cs)
      ≡ some (wide_insn (alu_opcode digit) dst (sib base idx scale (pos 0)) (pos 0), cs)
unfolding i_alu_reg_mem_sib
decode-i_alu_reg_mem_sib digit dst base idx scale cs hd hb hi ni hs =
    decode-sib (alu_opcode digit) dst base idx scale cs (ground arith) (ground arith) hd hb hi ni hs

pub decode-i_lea_rcx_regs :
    (base idx scale : ℕ) (cs : Bytes)
    → base < 16
    → idx < 16
    → (idx == 4) ≡ false
    → IsScale scale
    → decode (i_lea_rcx_regs base idx scale ++ cs)
      ≡ some (wide_insn 0x8D 1 (sib base idx scale (pos 0)) (pos 0), cs)
unfolding i_lea_rcx_regs
decode-i_lea_rcx_regs base idx scale cs hb hi ni hs =
    let prefix : 0x48 + 2 * high idx + high base ≡ 0x48 + 4 * high 1 + 2 * high idx + high base =
      omega arith in
    let m_at : 64 * mod_of base + 0x0C ≡ 64 * mod_of base + 8 * low 1 + 4 = omega arith in
    ap
      (λ k. decode (
        k
          ∷ 0x8D
          ∷ (64 * mod_of base + 0x0C)
          ∷ (64 * scale_bits scale + 8 * low idx + low base)
          ∷ zero_disp (mod_of base)
        ++ cs))
      prefix
    ∙ ap
        (λ k. decode (
          (0x48 + 4 * high 1 + 2 * high idx + high base)
            ∷ 0x8D
            ∷ k
            ∷ (64 * scale_bits scale + 8 * low idx + low base)
            ∷ zero_disp (mod_of base)
          ++ cs))
        m_at
    ∙ decode-sib 0x8D 1 base idx scale cs refl refl (omega arith) hb hi ni hs

take_rm-disp :
    (rex : Rex) (base : ℕ) (d : ℤ) (cs : Bytes)
    → base < 16
    → rex.b ≡ high base
    → rex.x ≡ 0
    → (low base == 4) ≡ true
    → IsInt32 d
    → take_rm rex 0x84 (0x24 ∷ e32 d ++ cs) ≡ some (mem base d, cs)
unfolding take_rm
take_rm-disp rex base d cs hb eb ex four h =
    let at : 4 + 8 * rex.b ≡ base = ground arith in
    rw ex (disp32_on-e32 (λ k. mem (4 + 8 * rex.b) k) d cs h ∙ ap (λ k. some (mem k d, cs)) at)

decode_disp :
    (digit dst base : ℕ) (d : ℤ) (m : ℕ) (cs rest : Bytes)
    → dst < 16
    → base < 16
    → m / 8 % 8 ≡ 0
    → take_rm (bits 1 (high dst) 0 (high base)) m cs ≡ some (mem base d, rest)
    → decode ((0x48 + 4 * high dst + high base) ∷ alu_opcode digit ∷ m ∷ cs)
      ≡ some (wide_insn (alu_opcode digit) (8 * high dst) (mem base d) (pos 0), rest)
decode_disp digit dst base d m cs rest hd hb zero_field e =
    let prefix : 0x48 + 4 * high dst + high base ≡ 0x40 + 8 * 1 + 4 * high dst + 2 * 0 + high base =
      omega arith in
    ap (λ k. decode (k ∷ alu_opcode digit ∷ m ∷ cs)) prefix
    ∙ decode-rex 1 (high dst) 0 (high base) (alu_opcode digit) m cs (mem base d) rest (omega arith)
        (omega arith) (omega arith) (omega arith) (ground arith) e
    ∙ finished-none (bits 1 (high dst) 0 (high base)) (alu_opcode digit) (8 * high dst) m
        (mem base d) (omega arith) (omega arith) (omega arith) rest (ground arith)

-- `i_alu_reg_mem_disp` leaves the register out of ModRM: whatever register it is given, the
-- instruction adds to or subtracts from rax, or from r8 for a register above 7.
pub decode-i_alu_reg_mem_disp :
    (digit dst base : ℕ) (d : ℤ) (cs : Bytes)
    → dst < 16
    → base < 16
    → IsInt32 d
    → decode (i_alu_reg_mem_disp digit dst base d ++ cs)
      ≡ some (wide_insn (alu_opcode digit) (8 * high dst) (mem base d) (pos 0), cs)
unfolding i_alu_reg_mem_disp
decode-i_alu_reg_mem_disp digit dst base d cs hd hb h = elim (Bool-cases (low base == 4)) [
  | inl four ↦ rw four (
      decode_disp digit dst base d 0x84 (0x24 ∷ e32 d ++ cs) cs hd hb (omega arith)
        (take_rm-disp (bits 1 (high dst) 0 (high base)) base d cs hb refl refl four h))
  | inr other ↦
      let m : ℕ = 0x80 + low base in
      let low_at : (m % 8 == 4) ≡ false = ground arith in
      let at : m % 8 + 8 * high base ≡ base = omega arith in
      rw other (
        decode_disp digit dst base d m (e32 d ++ cs) cs hd hb (omega arith) (
          take_rm-mem (bits 1 (high dst) 0 (high base)) m d cs (omega arith) low_at h
          ∙ ap (λ k. some (mem k d, cs)) at))
]
