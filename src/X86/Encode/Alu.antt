-- ===== src/X86/Encode/Alu.antt =====
-- The arithmetic of src/x86.c: `i_add` to `i_sar_rax_imm` on rax and rcx, and the operations of a
-- register with an immediate.
use lu_language.Prelude.{ℕ, ◌+◌, ◌*◌, ℤ, Bytes, [], ◌∷◌, ◌++◌, ◌%◌, if◌then◌else◌}
use lu_language.X86.Encode.{e8, e32, rex_w, modrm_rr}
use lu_language.X86.Word.{imm8_ok, word8}

abbrev pub i_add : Bytes
i_add = 0x48 ∷ 0x01 ∷ 0xC8 ∷ []

abbrev pub i_sub : Bytes
i_sub = 0x48 ∷ 0x29 ∷ 0xC8 ∷ []

abbrev pub i_imul : Bytes
i_imul = 0x48 ∷ 0x0F ∷ 0xAF ∷ 0xC1 ∷ []

abbrev pub i_and : Bytes
i_and = 0x48 ∷ 0x21 ∷ 0xC8 ∷ []

abbrev pub i_or : Bytes
i_or = 0x48 ∷ 0x09 ∷ 0xC8 ∷ []

abbrev pub i_xor : Bytes
i_xor = 0x48 ∷ 0x31 ∷ 0xC8 ∷ []

abbrev pub i_neg : Bytes
i_neg = 0x48 ∷ 0xF7 ∷ 0xD8 ∷ []

abbrev pub i_not : Bytes
i_not = 0x48 ∷ 0xF7 ∷ 0xD0 ∷ []

abbrev pub i_dec_rax : Bytes
i_dec_rax = 0x48 ∷ 0xFF ∷ 0xC8 ∷ []

abbrev pub i_test_rax : Bytes
i_test_rax = 0x48 ∷ 0x85 ∷ 0xC0 ∷ []

-- `cqo`, then `idiv rcx`
abbrev pub i_idiv : Bytes
i_idiv = 0x48 ∷ 0x99 ∷ 0x48 ∷ 0xF7 ∷ 0xF9 ∷ []

abbrev pub i_mod_rax : Bytes
i_mod_rax = 0x48 ∷ 0x89 ∷ 0xD0 ∷ []

abbrev pub i_shl : Bytes
i_shl = 0x48 ∷ 0xD3 ∷ 0xE0 ∷ []

abbrev pub i_sar : Bytes
i_sar = 0x48 ∷ 0xD3 ∷ 0xF8 ∷ []

abbrev pub i_shr : Bytes
i_shr = 0x48 ∷ 0xD3 ∷ 0xE8 ∷ []

abbrev pub i_cmp_rax_rcx : Bytes
i_cmp_rax_rcx = 0x48 ∷ 0x39 ∷ 0xC8 ∷ []

-- A condition code is below 16.
abbrev pub i_setcc : ℕ → Bytes
i_setcc cc = 0x0F ∷ (0x90 + cc) ∷ 0xC0 ∷ 0x0F ∷ 0xB6 ∷ 0xC0 ∷ []

abbrev pub i_movzx_rax_al : Bytes
i_movzx_rax_al = 0x0F ∷ 0xB6 ∷ 0xC0 ∷ []

abbrev pub i_movsxd_rax_eax : Bytes
i_movsxd_rax_eax = 0x48 ∷ 0x63 ∷ 0xC0 ∷ []

unfoldable pub i_alu_rax_imm : ℕ → ℕ → ℤ → Bytes
i_alu_rax_imm digit opcode32 v =
    if imm8_ok v then 0x48 ∷ 0x83 ∷ (0xC0 + 8 * digit) ∷ e8 v else 0x48 ∷ opcode32 ∷ e32 v

abbrev pub i_add_rax_imm : ℤ → Bytes
i_add_rax_imm v = i_alu_rax_imm 0 0x05 v

abbrev pub i_sub_rax_imm : ℤ → Bytes
i_sub_rax_imm v = i_alu_rax_imm 5 0x2D v

abbrev pub i_and_rax_imm : ℤ → Bytes
i_and_rax_imm v = i_alu_rax_imm 4 0x25 v

abbrev pub i_or_rax_imm : ℤ → Bytes
i_or_rax_imm v = i_alu_rax_imm 1 0x0D v

abbrev pub i_xor_rax_imm : ℤ → Bytes
i_xor_rax_imm v = i_alu_rax_imm 6 0x35 v

abbrev pub i_cmp_rax_imm : ℤ → Bytes
i_cmp_rax_imm v = i_alu_rax_imm 7 0x3D v

unfoldable pub i_imul_rax_imm : ℤ → Bytes
i_imul_rax_imm v = if imm8_ok v then 0x48 ∷ 0x6B ∷ 0xC0 ∷ e8 v else 0x48 ∷ 0x69 ∷ 0xC0 ∷ e32 v

-- `v & 0x3F`
unfoldable pub i_shift_rax_imm : ℕ → ℤ → Bytes
i_shift_rax_imm digit v = 0x48 ∷ 0xC1 ∷ (0xC0 + 8 * digit) ∷ word8 v % 64 ∷ []

abbrev pub i_shl_rax_imm : ℤ → Bytes
i_shl_rax_imm v = i_shift_rax_imm 4 v

abbrev pub i_shr_rax_imm : ℤ → Bytes
i_shr_rax_imm v = i_shift_rax_imm 5 v

abbrev pub i_sar_rax_imm : ℤ → Bytes
i_sar_rax_imm v = i_shift_rax_imm 7 v

unfoldable pub i_alu_reg_imm : ℕ → ℕ → ℤ → Bytes
i_alu_reg_imm op reg v =
    rex_w 0 reg
    ∷ (if imm8_ok v then 0x83 ∷ modrm_rr op reg ++ e8 v else 0x81 ∷ modrm_rr op reg ++ e32 v)

abbrev pub i_and_reg_imm : ℕ → ℤ → Bytes
i_and_reg_imm reg v = i_alu_reg_imm 4 reg v

-- `imm & 0x3F`, of a count that is not negative.
unfoldable pub i_sar_reg_imm : ℕ → ℕ → Bytes
i_sar_reg_imm reg imm = rex_w 0 reg ∷ 0xC1 ∷ modrm_rr 7 reg ++ (imm % 64 ∷ [])

unfoldable pub i_imul_reg_imm : ℕ → ℤ → Bytes
i_imul_reg_imm reg v = rex_w reg reg ∷ 0x69 ∷ modrm_rr reg reg ++ e32 v

unfoldable pub i_cmp_reg_imm : ℕ → ℤ → Bytes
i_cmp_reg_imm reg v =
    rex_w 0 reg
    ∷ (if imm8_ok v then 0x83 ∷ modrm_rr 7 reg ++ e8 v else 0x81 ∷ modrm_rr 7 reg ++ e32 v)
