-- ===== src/X86/Assign/Tests.antt =====
-- `x = x + 5` and `x = x - 5` for an `int64` in r12.
use lu_language.Prelude.{pos, int_eq, true, false, codes, refl, arith}
use lu_language.X86.Word.{imm8_ok, imm32_ok}
use lu_language.X86.Types.{type_i64, is_byte_like}
use lu_language.X86.Scope.{Var}
use lu_language.X86.Link.Steps.{start}
use lu_language.X86.Assign.Constant.{Leaves, change_by-reg}

abbrev counter : Var
counter = record {
  name = codes "x";
  ty = type_i64;
  is_array = false;
  count = 0;
  off = 8;
  global = false;
  reg = 12;
}

change_by-reg_example :
    Leaves counter true (pos 5) start 100 105 × Leaves counter false (pos 5) start 100 105
unfolding is_byte_like imm32_ok imm8_ok int_eq
change_by-reg_example =
    change_by-reg counter start 100 refl (omega arith) (omega arith) (pos 5) refl refl
