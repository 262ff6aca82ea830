-- ===== src/X86/Encode.antt =====
-- The instruction encoder of src/x86.c: `rex_w` to `i_lea_mem`, and the instructions between
-- registers. An encoder only appends to the code, so it is the list of bytes that it appends.
-- Where the source joins disjoint bit fields by `|`, the model adds them, `(r & 8) ? 1 : 0` is
-- `high r` and `r & 7` is `low r`.
pub mod Slots
pub mod Alu
pub mod Index
use lu_language.Prelude.{ℕ, ◌+◌, ◌*◌, ◌/◌, ◌%◌, ℤ, Bytes, [], ◌∷◌, ◌++◌, ◌==◌, if◌then◌else◌}
use lu_language.X86.Word.{word8, word32, word64, le4, le8, neg, imm8_ok, imm32_ok}

abbrev pub high : ℕ → ℕ
high r = r / 8 % 2

abbrev pub low : ℕ → ℕ
low r = r % 8

-- `e8(x, v)`, `e32(x, v)` and `e64(x, v)` of a signed value.
abbrev pub e8 : ℤ → Bytes
e8 v = word8 v ∷ []

abbrev pub e32 : ℤ → Bytes
e32 v = le4 (word32 v)

abbrev pub e64 : ℤ → Bytes
e64 v = le8 (word64 v)

abbrev pub rex_w : ℕ → ℕ → ℕ
rex_w r b = 0x48 + 4 * high r + high b

unfoldable pub rex_nw : ℕ → ℕ → Bytes
rex_nw r b = let v : ℕ = 0x40 + 4 * high r + high b in if v == 0x40 then [] else v ∷ []

-- The byte that `modrm_mem` and `modrm_rr` write.
abbrev pub modrm_byte : ℕ → ℕ → ℕ → ℕ
modrm_byte form reg rm = form + 8 * low reg + low rm

unfoldable pub modrm_mem : ℕ → ℕ → ℤ → Bytes
modrm_mem reg base disp = modrm_byte 0x80 reg base ∷ e32 disp

unfoldable pub modrm_rr : ℕ → ℕ → Bytes
modrm_rr reg rm = modrm_byte 0xC0 reg rm ∷ []

-- The move of an immediate, of which the short form extends the sign.
unfoldable pub i_mov_rax_imm : ℤ → Bytes
i_mov_rax_imm v = if imm32_ok v then 0x48 ∷ 0xC7 ∷ 0xC0 ∷ e32 v else 0x48 ∷ 0xB8 ∷ e64 v

unfoldable pub i_mov_reg_imm : ℕ → ℤ → Bytes
i_mov_reg_imm reg v =
    if reg == 0 then i_mov_rax_imm v else rex_w 0 reg ∷ 0xC7 ∷ modrm_rr 0 reg ++ e32 v

unfoldable pub i_mov_reg_reg : ℕ → ℕ → Bytes
i_mov_reg_reg dst src = rex_w src dst ∷ 0x89 ∷ modrm_rr src dst

-- rbp is register 5.
unfoldable pub i_mov_reg_mem : ℕ → ℤ → Bytes
i_mov_reg_mem reg disp = rex_w reg 5 ∷ 0x8B ∷ modrm_mem reg 5 disp

unfoldable pub i_mov_mem_reg : ℤ → ℕ → Bytes
i_mov_mem_reg disp reg = rex_w reg 5 ∷ 0x89 ∷ modrm_mem reg 5 disp

unfoldable pub i_lea_mem : ℕ → ℤ → Bytes
i_lea_mem reg disp = rex_w reg 5 ∷ 0x8D ∷ modrm_mem reg 5 (neg disp)

unfoldable pub i_mov_reg_imm64 : ℕ → ℕ → Bytes
i_mov_reg_imm64 reg v = rex_w 0 reg ∷ (0xB8 + low reg) ∷ le8 v

unfoldable pub i_xor_reg_reg : ℕ → ℕ → Bytes
i_xor_reg_reg dst src = rex_w src dst ∷ 0x31 ∷ modrm_rr src dst

unfoldable pub i_sub_reg_reg : ℕ → ℕ → Bytes
i_sub_reg_reg dst src = rex_w src dst ∷ 0x29 ∷ modrm_rr src dst

unfoldable pub i_add_reg_reg : ℕ → ℕ → Bytes
i_add_reg_reg dst src = rex_w src dst ∷ 0x01 ∷ modrm_rr src dst

unfoldable pub i_inc_reg : ℕ → Bytes
i_inc_reg reg = rex_w 0 reg ∷ 0xFF ∷ modrm_rr 0 reg

unfoldable pub i_dec_reg : ℕ → Bytes
i_dec_reg reg = rex_w 0 reg ∷ 0xFF ∷ modrm_rr 1 reg

unfoldable pub i_neg_reg : ℕ → Bytes
i_neg_reg reg = rex_w 0 reg ∷ 0xF7 ∷ modrm_rr 3 reg

unfoldable pub i_not_reg : ℕ → Bytes
i_not_reg reg = rex_w 0 reg ∷ 0xF7 ∷ modrm_rr 2 reg

unfoldable pub i_mul_reg : ℕ → Bytes
i_mul_reg src = rex_w 0 src ∷ 0xF7 ∷ modrm_rr 4 src

unfoldable pub i_imul_rax_reg : ℕ → Bytes
i_imul_rax_reg src = rex_w 0 src ∷ 0xF7 ∷ modrm_rr 5 src

unfoldable pub i_cmp_reg_reg : ℕ → ℕ → Bytes
i_cmp_reg_reg a b = rex_w b a ∷ 0x39 ∷ modrm_rr b a

unfoldable pub i_push_reg : ℕ → Bytes
i_push_reg reg = rex_nw 0 reg ++ ((0x50 + low reg) ∷ [])

unfoldable pub i_pop_reg : ℕ → Bytes
i_pop_reg reg = rex_nw 0 reg ++ ((0x58 + low reg) ∷ [])
