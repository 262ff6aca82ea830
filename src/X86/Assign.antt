-- ===== src/X86/Assign.antt =====
-- The assignment `x = x + c` or `x = x - c` with a constant, in `gen_set` of src/x86.c, for a
-- variable that is no array.
pub mod Constant
mod Tests
use lu_language.Prelude.{
  ℕ, ◌+◌, ◌≤◌, ◌<◌, ◌≢◌, ℤ, pos, negsuc, int_eq, Bytes, Bool, true, false, [], ◌∷◌, ◌++◌,
  append-nil, Option, none, some, length, drop, ◌==◌, if◌then◌else◌, ◌≡◌, refl, ap, ◌∙◌, sym, inl,
  inr, Bool-cases, arith,
}
use lu_language.X86.Word.{neg, imm8_ok, imm32_ok, IsInt32}
use lu_language.X86.Types.{ValueType, is_byte_like}
use lu_language.X86.Encode.{i_inc_reg, i_dec_reg}
use lu_language.X86.Encode.Alu.{i_alu_reg_imm}
use lu_language.X86.Code.{X, emit}
use lu_language.X86.Access.{i_inc_slot, i_dec_slot, i_alu_slot_imm}
use lu_language.X86.Scope.{Var}
use lu_language.X86.Decode.{Insn, reg, decode}
use lu_language.X86.Decode.Forms.{wide_insn}
use lu_language.X86.Decode.Intended.{alu_reg_imm, imm_opcode}
use lu_language.X86.Decode.Calls.{decode-encode}

abbrev pub delta_of : Bool → ℤ → ℤ
delta_of add iv = if add then iv else neg iv

abbrev pub fits_var : Var → ℤ → Bool
fits_var lv delta = if is_byte_like lv.ty then imm8_ok delta else imm32_ok delta

-- A variable in a register.
unfoldable pub change_reg : Bool → ℕ → ℤ → X → X
change_reg add r delta x =
    if int_eq delta (pos 1)
    then emit (i_inc_reg r) x
    else if int_eq delta (negsuc 0)
    then emit (i_dec_reg r) x
    else emit (i_alu_reg_imm (if add then 0 else 5) r delta) x

-- A variable in memory.
unfoldable pub change_slot : Var → ℤ → X → X
change_slot lv delta x =
    if int_eq delta (pos 1)
    then i_inc_slot lv.global lv.off lv.ty x
    else if int_eq delta (negsuc 0)
    then i_dec_slot lv.global lv.off lv.ty x
    else i_alu_slot_imm lv.global lv.off lv.ty 0 delta x

-- `none` when the constant does not fit and the code goes on to other forms.
unfoldable pub change_by : Var → Bool → ℤ → X → Option X
change_by lv add iv x =
    if fits_var lv (delta_of add iv)
    then if int_eq (delta_of add iv) (pos 0)
      then some x
      else if lv.reg == 0
      then some (change_slot lv (delta_of add iv) x)
      else some (change_reg add lv.reg (delta_of add iv) x)
    else none
