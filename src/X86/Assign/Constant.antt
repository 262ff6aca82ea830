-- ===== src/X86/Assign/Constant.antt =====
-- What the assignment of src/x86.c that adds or subtracts a constant does to a variable in a
-- register: the appended bytes are decoded and run.
use lu_language.Prelude.{
  ℕ, zero, suc, ◌+◌, ◌-◌, ◌%◌, ◌<◌, ℤ, pos, negsuc, int_eq, Bytes, Bool, true, false, ◌&&◌, ◌||◌,
  [], ◌∷◌, append-nil, Option, none, some, ◌==◌, if◌then◌else◌, ◌≡◌, refl, ap, ◌∙◌, sym, inl, inr,
  Bool-cases, arith,
}
use lu_language.X86.Word.{neg, word64, imm8_ok, imm32_ok, IsInt32}
use lu_language.X86.Encode.{i_inc_reg, i_dec_reg}
use lu_language.X86.Encode.Alu.{i_alu_reg_imm}
use lu_language.X86.Code.{X, emit}
use lu_language.X86.Scope.{Var}
use lu_language.X86.Decode.{Rm, reg, Insn, decode}
use lu_language.X86.Decode.Intended.{Call, encode, intended, InRange, alu_reg_imm, inc_reg, dec_reg}
use lu_language.X86.Decode.Calls.{decode-encode}
use lu_language.X86.Assign.{fits_var, change_reg, change_by}

-- Sums and differences of 64-bit words.
abbrev pub plus : ℕ → ℤ → ℕ
plus w v = (w + word64 v) % 18446744073709551616

abbrev pub minus : ℕ → ℤ → ℕ
minus w v = (w + 18446744073709551616 - word64 v) % 18446744073709551616

abbrev names_reg : ℕ → Rm → Bool
names_reg r (reg i) = i == r
names_reg r _ = false

-- What an instruction on register `r` makes of its word: FF /0 is `inc`, FF /1 `dec`, and with an
-- immediate 81 or 83 /0 is `add` and /5 `sub`.
abbrev pub effect : ℕ → Insn → ℕ → Option ℕ
effect r i w =
    if i.wide && names_reg r i.rm
    then (if i.opcode == 0xFF
        then (if i.digit == 0
            then some (plus w (pos 1))
            else if i.digit == 1
            then some (minus w (pos 1))
            else none)
        else if i.opcode == 0x81 || i.opcode == 0x83
        then (if i.digit == 0
            then some (plus w i.imm)
            else if i.digit == 5
            then some (minus w i.imm)
            else none)
        else none)
    else none

abbrev ran : ℕ → Option (Insn × Bytes) → ℕ → Option ℕ
ran r none w = none
ran r (some (i, [])) w = effect r i w
ran r (some (i, _ ∷ _)) w = none

-- The word of register `r` behind a code of no instruction or of one.
abbrev pub after : ℕ → Bytes → ℕ → Option ℕ
after r [] w = some w
after r (c ∷ cs) w = ran r (decode (c ∷ cs)) w

-- The assignment appends code that takes the register of the variable from `w` to `v`.
pub record Leaves (lv : Var) (add : Bool) (iv : ℤ) (x : X) (w v : ℕ) : Type 0 where
  pub code : Bytes
  pub appends : change_by lv add iv x ≡ some (emit code x)
  pub runs : after lv.reg code w ≡ some v

-- The difference is right for 0, 1 and -1; for other constants it is the sum.
abbrev pub difference : ℕ → ℤ → ℕ
difference w iv =
    if int_eq iv (pos 0) || int_eq iv (pos 1) || int_eq iv (negsuc 0) then minus w iv else plus w iv

after-one :
    (r : ℕ) (code : Bytes) (w : ℕ) (i : Insn)
    → decode code ≡ some (i, [])
    → after r code w ≡ effect r i w
unfolding decode
after-one r [] w i e = cc
after-one r (c ∷ cs) w i e = ap (λ o. ran r o w) e

after-encode :
    (r : ℕ) (c : Call) (w : ℕ) → InRange c → after r (encode c) w ≡ effect r (intended c) w
after-encode r c w h =
    after-one r (encode c) w (intended c)
      (ap decode (sym (append-nil (encode c))) ∙ decode-encode c [] h)

same_reg : (r : ℕ) → (r == r) ≡ true
same_reg r = ground arith

after-alu :
    (r : ℕ) (digit : ℕ) (v : ℤ) (w : ℕ)
    → r < 16
    → IsInt32 v
    → (digit < 8)
    → after r (i_alu_reg_imm digit r v) w ≡ effect r (intended (alu_reg_imm digit r v)) w
after-alu r digit v w low h d = after-encode r (alu_reg_imm digit r v) w (d, (low, h))

fits-IsInt32 : (lv : Var) (v : ℤ) → fits_var lv v ≡ true → IsInt32 v
unfolding imm32_ok imm8_ok
fits-IsInt32 lv (pos n) h = ground arith
fits-IsInt32 lv (negsuc n) h = ground arith

-- `add` and `sub` with a 32-bit number.
after-add :
    (r : ℕ) (v : ℤ) (w : ℕ) → r < 16 → IsInt32 v → after r (i_alu_reg_imm 0 r v) w ≡ some (plus w v)
after-add r v w low h = after-alu r 0 v w low h (omega arith) ∙ (elim (Bool-cases (imm8_ok v)) [
  | inl e ↦ rw (e, same_reg r) refl
  | inr e ↦ rw (e, same_reg r) refl
])

after-sub :
    (r : ℕ) (v : ℤ) (w : ℕ)
    → r < 16
    → IsInt32 v
    → after r (i_alu_reg_imm 5 r v) w ≡ some (minus w v)
after-sub r v w low h = after-alu r 5 v w low h (omega arith) ∙ (elim (Bool-cases (imm8_ok v)) [
  | inl e ↦ rw (e, same_reg r) refl
  | inr e ↦ rw (e, same_reg r) refl
])

after-inc : (r w : ℕ) → r < 16 → after r (i_inc_reg r) w ≡ some (plus w (pos 1))
after-inc r w low = after-encode r (inc_reg r) w low ∙ rw (same_reg r) refl

after-dec : (r w : ℕ) → r < 16 → after r (i_dec_reg r) w ≡ some (minus w (pos 1))
after-dec r w low = after-encode r (dec_reg r) w low ∙ rw (same_reg r) refl

not_zero : (n : ℕ) → (suc n == 0) ≡ false
not_zero n = ground arith

not_one : (n : ℕ) → (suc (suc n) == 1) ≡ false
not_one n = ground arith

plus_not_zero : (n : ℕ) → (suc n + 1 == 0) ≡ false
plus_not_zero n = ground arith

plus_not_one : (n : ℕ) → (suc n + 1 == 1) ≡ false
plus_not_one n = ground arith

module _ (lv : Var) (x : X) (w : ℕ) (cached : (lv.reg == 0) ≡ false) (low : lv.reg < 16)
    (word : w < 18446744073709551616) where
  nothing-Leaves :
      (add : Bool) (iv : ℤ) (v : ℕ)
      → change_by lv add iv x ≡ some x
      → v ≡ w
      → Leaves lv add iv x w v
  nothing-Leaves add iv v e same = record {
    code = [];
    appends = e ∙ ap (λ k. some (record x { code = k })) (sym (append-nil x.code));
    runs = ap some (sym same);
  }

  adds-Leaves : (iv : ℤ) → fits_var lv iv ≡ true → Leaves lv true iv x w (plus w iv)
  unfolding change_by change_reg int_eq
  adds-Leaves (pos zero) fits = nothing-Leaves true (pos 0) _ (rw fits refl) (omega (arith, word))
  adds-Leaves (pos (suc zero)) fits = record {
    code = i_inc_reg lv.reg;
    appends = rw (fits, cached) refl;
    runs = after-inc lv.reg w low;
  }
  adds-Leaves (pos (suc (suc n))) fits = record {
    code = i_alu_reg_imm 0 lv.reg (pos (suc (suc n)));
    appends = rw (fits, cached, not_zero (suc n), not_one n) refl;
    runs = after-add lv.reg (pos (suc (suc n))) w low (fits-IsInt32 lv (pos (suc (suc n))) fits);
  }
  adds-Leaves (negsuc zero) fits = record {
    code = i_dec_reg lv.reg;
    appends = rw (fits, cached) refl;
    runs = after-dec lv.reg w low ∙ ap some (omega (arith, word));
  }
  adds-Leaves (negsuc (suc n)) fits = record {
    code = i_alu_reg_imm 0 lv.reg (negsuc (suc n));
    appends = rw (fits, cached, not_zero n) refl;
    runs = after-add lv.reg (negsuc (suc n)) w low (fits-IsInt32 lv (negsuc (suc n)) fits);
  }

  subtracts-Leaves :
      (iv : ℤ) → fits_var lv (neg iv) ≡ true → Leaves lv false iv x w (difference w iv)
  unfolding change_by change_reg int_eq
  subtracts-Leaves (pos zero) fits =
      nothing-Leaves false (pos 0) _ (rw fits refl) (omega (arith, word))
  subtracts-Leaves (pos (suc zero)) fits = record {
    code = i_dec_reg lv.reg;
    appends = rw (fits, cached) refl;
    runs = after-dec lv.reg w low;
  }
  subtracts-Leaves (pos (suc (suc n))) fits =
      let small = fits-IsInt32 lv (negsuc (suc n)) fits in
      record {
        code = i_alu_reg_imm 5 lv.reg (negsuc (suc n));
        appends = rw (fits, cached, not_zero n) refl;
        runs =
            after-sub lv.reg (negsuc (suc n)) w low small
            ∙ ap some (rw (not_zero (suc n), not_one n) (omega (arith, small, word)));
      }
  subtracts-Leaves (negsuc zero) fits = record {
    code = i_inc_reg lv.reg;
    appends = rw (fits, cached) refl;
    runs = after-inc lv.reg w low ∙ ap some (omega (arith, word));
  }
  subtracts-Leaves (negsuc (suc n)) fits =
      let small = fits-IsInt32 lv (pos (suc n + 1)) fits in
      record {
        code = i_alu_reg_imm 5 lv.reg (pos (suc n + 1));
        appends = rw (fits, cached, plus_not_zero n, plus_not_one n) refl;
        runs =
            after-sub lv.reg (pos (suc n + 1)) w low small
            ∙ ap some (rw (not_zero n) (omega (arith, small, word)));
      }

  -- For a variable in one of the registers 1 to 15 that holds a 64-bit word, and a constant that
  -- fits as it is and negated, the code that is appended adds the constant for `x = x + c`. For
  -- `x = x - c` it subtracts the constant if that is 0, 1 or -1, and adds it if it is any other.
  pub change_by-reg :
      (iv : ℤ)
      → fits_var lv iv ≡ true
      → fits_var lv (neg iv) ≡ true
      → Leaves lv true iv x w (plus w iv) × Leaves lv false iv x w (difference w iv)
  change_by-reg iv fits fits' = (adds-Leaves iv fits, subtracts-Leaves iv fits')
