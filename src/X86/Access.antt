-- ===== src/X86/Access.antt =====
-- The instructions of src/x86.c on global variables, and those that change a variable in place:
-- `modrm_rip` to `i_dec_slot`.
use lu_language.Prelude.{ℕ, ◌+◌, ◌*◌, ℤ, pos, Bytes, Bool, [], ◌∷◌, ◌++◌, ◌==◌, if◌then◌else◌}
use lu_language.X86.Word.{neg, imm8_ok}
use lu_language.X86.Types.{ValueType, is_byte_like, size_of}
use lu_language.X86.Encode.{low, e8, e32, rex_w, rex_nw, modrm_mem}
use lu_language.X86.Code.{X, emit, data_operand}

-- `opcode` is the bytes before the ModRM byte.
abbrev pub modrm_rip : Bytes → ℕ → ℕ → X → X
modrm_rip opcode reg doff x = data_operand (opcode ++ ((8 * low reg + 5) ∷ [])) doff x

unfoldable pub i_load_data_reg : ℕ → ℕ → ValueType → X → X
i_load_data_reg reg doff t x =
    if is_byte_like t
    then modrm_rip (rex_nw reg 0 ++ (0x0F ∷ 0xB6 ∷ [])) reg doff x
    else if size_of t == 8
    then modrm_rip (rex_w reg 0 ∷ 0x8B ∷ []) reg doff x
    else modrm_rip (rex_w reg 0 ∷ 0x63 ∷ []) reg doff x

unfoldable pub i_store_data_reg : ℕ → ValueType → ℕ → X → X
i_store_data_reg doff t reg x =
    if is_byte_like t
    then modrm_rip (rex_nw reg 0 ++ (0x88 ∷ [])) reg doff x
    else if size_of t == 8
    then modrm_rip (rex_w reg 0 ∷ 0x89 ∷ []) reg doff x
    else modrm_rip (rex_nw reg 0 ++ (0x89 ∷ [])) reg doff x

abbrev pub slot_bytes : ValueType → ℕ
slot_bytes t = if is_byte_like t then 1 else if size_of t == 8 then 8 else 4

-- The operand: an offset of the data of a global, a distance below rbp of a local.
unfoldable pub slot_operand : Bool → Bytes → ℕ → ℕ → X → X
slot_operand global opcode digit doff x =
    if global
    then modrm_rip opcode digit doff x
    else emit (opcode ++ modrm_mem digit 5 (neg (pos doff))) x

-- `if (bytes == 8) e8(x, 0x48)`
abbrev pub wide_prefix : ValueType → Bytes
wide_prefix t = if slot_bytes t == 8 then 0x48 ∷ [] else []

-- The opcode and the immediate.
abbrev pub slot_opcode : ValueType → ℤ → ℕ
slot_opcode t v = if slot_bytes t == 1 then 0x80 else if imm8_ok v then 0x83 else 0x81

abbrev pub slot_imm : ValueType → ℤ → Bytes
slot_imm t v = if slot_bytes t == 1 then e8 v else if imm8_ok v then e8 v else e32 v

unfoldable pub i_alu_slot_imm : Bool → ℕ → ValueType → ℕ → ℤ → X → X
i_alu_slot_imm global doff t digit v x =
    emit (slot_imm t v) (slot_operand global (wide_prefix t ++ (slot_opcode t v ∷ [])) digit doff x)

abbrev pub step_opcode : ValueType → ℕ
step_opcode t = if slot_bytes t == 1 then 0xFE else 0xFF

unfoldable pub i_inc_slot : Bool → ℕ → ValueType → X → X
i_inc_slot global doff t x = slot_operand global (wide_prefix t ++ (step_opcode t ∷ [])) 0 doff x

unfoldable pub i_dec_slot : Bool → ℕ → ValueType → X → X
i_dec_slot global doff t x = slot_operand global (wide_prefix t ++ (step_opcode t ∷ [])) 1 doff x
