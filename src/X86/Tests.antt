-- ===== src/X86/Tests.antt =====
-- The encoder of src/x86.c on small inputs.
use lu_language.Prelude.{◌++◌, ◌≡◌, refl, pos, negsuc, [], ◌∷◌, some, arith}
use lu_language.X86.Types.{type_int, is_byte_like}
use lu_language.X86.Word.{imm8_ok, imm32_ok, le8}
use lu_language.X86.Encode.{rex_nw, modrm_rr, modrm_mem, i_mov_rax_imm, i_push_reg}
use lu_language.X86.Encode.Alu.{i_alu_reg_imm}
use lu_language.X86.Encode.Index.{i_alu_reg_mem_disp}
use lu_language.X86.Encode.Slots.{i_store_slot_reg}
use lu_language.X86.Decode.{mem, decode}
use lu_language.X86.Decode.Forms.{wide_insn}
use lu_language.X86.Decode.Intended.{alu_reg_imm, encode, intended}
use lu_language.X86.Decode.Calls.{decode-encode}
use lu_language.X86.Decode.Indexed.{decode-i_alu_reg_mem_disp}

-- `sub r12, 1000`
sub_r12 : i_alu_reg_imm 5 12 (pos 1000) ≡ 0x49 ∷ 0x81 ∷ 0xEC ∷ 0xE8 ∷ 0x03 ∷ 0 ∷ 0 ∷ []
unfolding i_alu_reg_imm imm8_ok modrm_rr
sub_r12 = refl

-- `mov [rbp - 8], r9d`
store_r9 : i_store_slot_reg (pos 8) type_int 9 ≡ 0x44 ∷ 0x89 ∷ 0x8D ∷ 0xF8 ∷ 0xFF ∷ 0xFF ∷ 0xFF ∷ []
unfolding i_store_slot_reg rex_nw modrm_mem is_byte_like
store_r9 = refl

-- `movabs rax, 2^32` and `push r13`
mov_large :
    i_mov_rax_imm (pos 4294967296) ++ i_push_reg 13
    ≡ 0x48 ∷ 0xB8 ∷ 0 ∷ 0 ∷ 0 ∷ 0 ∷ 1 ∷ 0 ∷ 0 ∷ 0 ∷ 0x41 ∷ 0x55 ∷ []
unfolding i_mov_rax_imm i_push_reg imm32_ok le8 rex_nw
mov_large = refl

decode-encode_example :
    decode (encode (alu_reg_imm 5 12 (negsuc 999)) ++ (0xC3 ∷ []))
    ≡ some (intended (alu_reg_imm 5 12 (negsuc 999)), 0xC3 ∷ [])
decode-encode_example =
    decode-encode (alu_reg_imm 5 12 (negsuc 999)) (0xC3 ∷ [])
      (omega arith, (omega arith, omega arith))

decode-i_alu_reg_mem_disp_example :
    decode (i_alu_reg_mem_disp 0 12 3 (pos 40) ++ (0xC3 ∷ []))
    ≡ some (wide_insn 0x03 8 (mem 3 (pos 40)) (pos 0), 0xC3 ∷ [])
decode-i_alu_reg_mem_disp_example =
    decode-i_alu_reg_mem_disp 0 12 3 (pos 40) (0xC3 ∷ []) (omega arith) (omega arith) (omega arith)
