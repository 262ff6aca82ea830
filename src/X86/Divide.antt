-- ===== src/X86/Divide.antt =====
-- Division by a constant in src/x86.c: `signed_magic`. The numbers of `unsigned __int128` are below
-- 2^128 in it: at most 2^126, 2^64 and their products.
pub mod Words
pub mod Exact
pub mod Power
pub mod Found
pub mod Quotient
pub mod Correct
mod Tests
use lu_language.X86.Word.{neg}
use lu_language.X86.Machine.{
  Op, mov_reg_reg, add_reg_reg, sub_reg_reg, sar_reg_imm, mov_reg_imm64, and_reg_imm, neg_reg,
  imul_rax_reg, imul_rax_imm, bit_and, assemble,
}
use lu_language.Prelude.{
  ℤ, pos, negsuc, true, false, List, Bytes, [], ◌∷◌, ◌++◌, ℕ, zero, suc, ◌+◌, ◌-◌, ◌*◌, ◌/◌, ◌^◌,
  Bool, ◌||◌, Option, none, some, ◌==◌, ltb, leb, if◌then◌else◌,
}

-- The multiplier of a shift.
abbrev pub multiplier : ℕ → ℕ → ℕ
multiplier s d = 2 ^ (64 + s) / d + 1

abbrev pub excess : ℕ → ℕ → ℕ
excess s d = multiplier s d * d - 2 ^ (64 + s)

-- The two conditions on which the loop goes on.
unfoldable pub refused : ℕ → ℕ → Bool
refused s d =
    leb 18446744073709551616 (multiplier s d) || (excess s d == 0 || ltb (2 ^ (s + 1)) (excess s d))

-- The loop on fuel: `rounds` of it from the shift s on.
unfoldable pub magic_on : ℕ → ℕ → ℕ → Option (ℕ × ℕ)
magic_on zero s d = none
magic_on (suc rounds) s d =
    let rest = magic_on rounds (s + 1) d in if refused s d then rest else some (s, multiplier s d)

-- s = 0 to 62
unfoldable pub signed_magic : ℕ → Option (ℕ × ℕ)
signed_magic d = magic_on 63 0 d

-- `dabs`, and the sign of the divisor.
abbrev pub dabs : ℤ → ℕ
dabs (pos n) = n
dabs (negsuc n) = n + 1

abbrev pub is_negative : ℤ → Bool
is_negative (pos n) = false
is_negative (negsuc n) = true

-- `while (((uint64_t)1 << shift) < dabs) shift++`, for at most 63 rounds.
unfoldable pub log_on : ℕ → ℕ → ℕ → ℕ
log_on zero shift d = shift
log_on (suc rounds) shift d =
    let rest = log_on rounds (shift + 1) d in if ltb (2 ^ shift) d then rest else shift

abbrev pub is_pow2 : ℕ → Bool
is_pow2 d = bit_and 64 d (d - 1) == 0

-- The number, its sign, and the quotient from either.
abbrev pub begin : List Op
begin = mov_reg_reg 8 0 ∷ mov_reg_reg 9 0 ∷ sar_reg_imm 9 63 ∷ []

abbrev pub by_power : ℕ → ℕ → List Op
by_power d shift = and_reg_imm 9 (pos (d - 1)) ∷ add_reg_reg 0 9 ∷ sar_reg_imm 0 shift ∷ []

abbrev pub by_magic : ℕ → ℕ → List Op
by_magic shift magic =
    mov_reg_imm64 11 magic
    ∷ imul_rax_reg 11
    ∷ ((if leb 9223372036854775808 magic then add_reg_reg 2 8 ∷ [] else [])
        ++ ((if shift == 0 then [] else sar_reg_imm 2 shift ∷ [])
            ++ (mov_reg_reg 0 2 ∷ sub_reg_reg 0 9 ∷ [])))

abbrev pub finish : ℤ → Bool → List Op
finish d want_rem =
    (if is_negative d then neg_reg 0 ∷ [] else [])
    ++ (if want_rem then imul_rax_imm d ∷ sub_reg_reg 8 0 ∷ mov_reg_reg 0 8 ∷ [] else [])

-- `none` where the source answers false, before it has written anything.
abbrev pub by_found : ℤ → Bool → Option (ℕ × ℕ) → Option (List Op)
by_found d want_rem none = none
by_found d want_rem (some r) = some (begin ++ (by_magic r.0 r.1 ++ finish d want_rem))

unfoldable pub divmod_ops : ℤ → Bool → Option (List Op)
divmod_ops d want_rem =
    if ltb (dabs d) 2
    then none
    else if is_pow2 (dabs d)
    then some (begin ++ (by_power (dabs d) (log_on 64 0 (dabs d)) ++ finish d want_rem))
    else by_found d want_rem (signed_magic (dabs d))

abbrev pub assembled : Option (List Op) → Option Bytes
assembled none = none
assembled (some ops) = some (assemble ops)

unfoldable pub gen_const_divmod : ℤ → Bool → Option Bytes
gen_const_divmod d want_rem = assembled (divmod_ops d want_rem)
