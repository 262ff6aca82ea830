-- ===== src/X86/Encode/Index.antt =====
-- The operands with a scaled index of src/x86.c: `i_lea_rax_rcx_index` to `i_alu_reg_mem_disp`.
use lu_language.Prelude.{ℕ, ◌+◌, ◌*◌, ℤ, pos, Bytes, [], ◌∷◌, ◌++◌, ◌==◌, if◌then◌else◌}
use lu_language.X86.Encode.{e8, e32, high, low}

abbrev pub scale_bits : ℕ → ℕ
scale_bits scale = if scale == 8 then 3 else if scale == 4 then 2 else if scale == 2 then 1 else 0

unfoldable pub i_lea_rax_rcx_index : ℕ → Bytes
i_lea_rax_rcx_index scale = 0x48 ∷ 0x8D ∷ 0x04 ∷ (64 * scale_bits scale + 0x01) ∷ []

unfoldable pub i_lea_rax_base_rcx : ℕ → Bytes
i_lea_rax_base_rcx scale = 0x48 ∷ 0x8D ∷ 0x04 ∷ (64 * scale_bits scale + 0x08) ∷ []

unfoldable pub i_lea_rax_reg_index : ℕ → ℕ → Bytes
i_lea_rax_reg_index idxreg scale =
    (0x48 + 2 * high idxreg) ∷ 0x8D ∷ 0x04 ∷ (64 * scale_bits scale + 8 * low idxreg) ∷ []

-- The form that a base register needs.
abbrev pub mod_of : ℕ → ℕ
mod_of base = if low base == 4 then 2 else if low base == 5 then 1 else 0

-- The displacement 0 behind it.
abbrev pub zero_disp : ℕ → Bytes
zero_disp form = if form == 2 then e32 (pos 0) else if form == 1 then e8 (pos 0) else []

unfoldable pub i_lea_rcx_regs : ℕ → ℕ → ℕ → Bytes
i_lea_rcx_regs base idxreg scale =
    (0x48 + 2 * high idxreg + high base)
    ∷ 0x8D
    ∷ (64 * mod_of base + 0x0C)
    ∷ (64 * scale_bits scale + 8 * low idxreg + low base)
    ∷ zero_disp (mod_of base)

-- `digit ? 0x2B : 0x03`
abbrev pub alu_opcode : ℕ → ℕ
alu_opcode digit = if digit == 0 then 0x03 else 0x2B

unfoldable pub i_alu_reg_mem_sib : ℕ → ℕ → ℕ → ℕ → ℕ → Bytes
i_alu_reg_mem_sib digit dst base idxreg scale =
    (0x48 + 4 * high dst + 2 * high idxreg + high base)
    ∷ alu_opcode digit
    ∷ (64 * mod_of base + 8 * low dst + 0x04)
    ∷ (64 * scale_bits scale + 8 * low idxreg + low base)
    ∷ zero_disp (mod_of base)

unfoldable pub i_alu_reg_mem_disp : ℕ → ℕ → ℕ → ℤ → Bytes
i_alu_reg_mem_disp digit dst base disp =
    (0x48 + 4 * high dst + high base)
    ∷ alu_opcode digit
    ∷ ((if low base == 4 then 0x84 ∷ 0x24 ∷ [] else (0x80 + low base) ∷ []) ++ e32 disp)
