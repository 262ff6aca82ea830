-- ===== src/X86/Machine.antt =====
-- The instructions that `gen_const_divmod` of src/x86.c uses, as the processor runs them on 64-bit
-- words, and the encoder's bytes for them.
use lu_language.Prelude.{
  ℕ, zero, suc, ◌+◌, ◌-◌, ◌*◌, ◌/◌, ◌%◌, ◌^◌, ℤ, Bytes, List, [], ◌∷◌, ◌++◌, ◌==◌, ltb, leb,
  if◌then◌else◌,
}
use lu_language.X86.Word.{word64}
use lu_language.X86.Encode.{
  i_mov_reg_reg, i_add_reg_reg, i_sub_reg_reg, i_neg_reg, i_imul_rax_reg, i_mov_reg_imm64,
}
use lu_language.X86.Encode.Alu.{i_sar_reg_imm, i_and_reg_imm, i_imul_rax_imm}

pub data Op : Type 0 where
  mov_reg_reg add_reg_reg sub_reg_reg : ℕ → ℕ → Op
  sar_reg_imm mov_reg_imm64 : ℕ → ℕ → Op
  neg_reg imul_rax_reg : ℕ → Op
  imul_rax_imm : ℤ → Op
  and_reg_imm : ℕ → ℤ → Op

abbrev pub bytes_of : Op → Bytes
bytes_of (mov_reg_reg dst src) = i_mov_reg_reg dst src
bytes_of (add_reg_reg dst src) = i_add_reg_reg dst src
bytes_of (sub_reg_reg dst src) = i_sub_reg_reg dst src
bytes_of (sar_reg_imm r k) = i_sar_reg_imm r k
bytes_of (mov_reg_imm64 r v) = i_mov_reg_imm64 r v
bytes_of (and_reg_imm r v) = i_and_reg_imm r v
bytes_of (neg_reg r) = i_neg_reg r
bytes_of (imul_rax_reg r) = i_imul_rax_reg r
bytes_of (imul_rax_imm v) = i_imul_rax_imm v

-- The value of a word without its sign.
abbrev pub magnitude : ℕ → ℕ
magnitude w = if ltb w 9223372036854775808 then w else 18446744073709551616 - w

-- The upper half of a signed product.
abbrev pub high_half : ℕ → ℕ → ℕ
high_half a b =
    if magnitude a * magnitude b == 0
    then 0
    else if (if ltb a 9223372036854775808
        then ltb b 9223372036854775808
        else leb 9223372036854775808 b)
    then magnitude a * magnitude b / 18446744073709551616
    else (340282366920938463463374607431768211456 - magnitude a * magnitude b)
      / 18446744073709551616

-- The shift that keeps the sign.
abbrev pub sar : ℕ → ℕ → ℕ
sar w k =
    if ltb w 9223372036854775808
    then w / 2 ^ k
    else 18446744073709551615 - (18446744073709551615 - w) / 2 ^ k

-- `&` on the low bits.
unfoldable pub bit_and : ℕ → ℕ → ℕ → ℕ
bit_and zero a b = 0
bit_and (suc bits) a b = a % 2 * (b % 2) + 2 * bit_and bits (a / 2) (b / 2)

abbrev pub Regs : Type 0
Regs = ℕ → ℕ

abbrev pub set : ℕ → ℕ → Regs → Regs
set i v r j = if j == i then v else r j

unfoldable pub exec : Op → Regs → Regs
exec (mov_reg_reg dst src) r = set dst (r src) r
exec (add_reg_reg dst src) r = set dst ((r dst + r src) % 18446744073709551616) r
exec (sub_reg_reg dst src) r =
    set dst ((r dst + 18446744073709551616 - r src) % 18446744073709551616) r
exec (sar_reg_imm i k) r = set i (sar (r i) (k % 64)) r
exec (mov_reg_imm64 i v) r = set i v r
exec (and_reg_imm i v) r = set i (bit_and 64 (r i) (word64 v)) r
exec (neg_reg i) r = set i ((18446744073709551616 - r i) % 18446744073709551616) r
exec (imul_rax_reg i) r = set 2 (high_half (r 0) (r i)) (set 0 (r 0 * r i % 18446744073709551616) r)
exec (imul_rax_imm v) r = set 0 (r 0 * word64 v % 18446744073709551616) r

unfoldable pub run : List Op → Regs → Regs
run [] r = r
run (o ∷ ops) r = run ops (exec o r)

unfoldable pub assemble : List Op → Bytes
assemble [] = []
assemble (o ∷ ops) = bytes_of o ++ assemble ops
