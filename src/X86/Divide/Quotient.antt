-- ===== src/X86/Divide/Quotient.antt =====
-- What the instructions of `gen_const_divmod` of src/x86.c leave in rax.
use native.Mathlib.Nat.{add-div_right, one-le-pow, div-le_self, mul-pos}
use lu_language.Prelude.{
  ℕ, zero, suc, ◌+◌, ◌-◌, ◌*◌, ◌/◌, ◌%◌, ◌^◌, ◌≤◌, ◌<◌, ℤ, Bool, true, false, List, [], ◌∷◌, ◌++◌,
  append_assoc, some, ◌==◌, ltb, leb, if◌then◌else◌, ◌≡◌, refl, ap, ◌∙◌, sym, inl, inr, Bool-cases,
  arith,
}
use lu_language.X86.Word.{word64}
use lu_language.X86.Machine.{
  Op, neg_reg, imul_rax_imm, mov_reg_reg, add_reg_reg, sub_reg_reg, sar_reg_imm, mov_reg_imm64,
  imul_rax_reg, Regs, sar, high_half, exec, run,
}
use lu_language.X86.Divide.{signed_magic, dabs, is_negative, begin, by_magic, finish}
use lu_language.X86.Divide.Exact.{signed_magic-exact, signed_magic-range}
use lu_language.X86.Divide.Words.{corrected, corrected-lt, shifted_pos, shifted_neg}

-- The quotient of a signed word by a positive divisor, rounded towards zero.
abbrev pub word_quotient : ℕ → ℕ → ℕ
word_quotient w d =
    if ltb w 9223372036854775808
    then w / d
    else (18446744073709551616 - (18446744073709551616 - w) / d) % 18446744073709551616

-- The same for a divisor with a sign.
abbrev pub signed_quotient : ℕ → ℤ → ℕ
signed_quotient w d =
    if is_negative d
    then (18446744073709551616 - word_quotient w (dabs d)) % 18446744073709551616
    else word_quotient w (dabs d)

-- The quotient, or the number less quotient times divisor.
abbrev pub outcome : ℕ → ℤ → Bool → ℕ
outcome w d want_rem =
    if want_rem
    then (w + 18446744073709551616 - signed_quotient w d * word64 d % 18446744073709551616)
      % 18446744073709551616
    else signed_quotient w d

run-append : (xs ys : List Op) (r : Regs) → run (xs ++ ys) r ≡ run ys (run xs r)
unfolding run
run-append [] ys r = refl
run-append (o ∷ xs) ys r = run-append xs ys (exec o r)

-- rax after the multiplication, the correction and the shift.
abbrev estimate : ℕ → ℕ → ℕ → ℕ
estimate w s m = (sar (corrected w m) s + 18446744073709551616 - sar w 63) % 18446744073709551616

sar_zero : (w : ℕ) → w < 18446744073709551616 → sar w 0 ≡ w
sar_zero w h = ground arith

-- The instructions by the two tests that choose among them.
abbrev flagged : Bool → Bool → ℕ → ℕ → List Op
flagged large unshifted s m =
    mov_reg_imm64 11 m
    ∷ imul_rax_reg 11
    ∷ ((if large then add_reg_reg 2 8 ∷ [] else [])
        ++ ((if unshifted then [] else sar_reg_imm 2 s ∷ [])
            ++ (mov_reg_reg 0 2 ∷ sub_reg_reg 0 9 ∷ [])))

abbrev upper : Bool → ℕ → ℕ → ℕ
upper large w m = if large then (high_half w m + w) % 18446744073709551616 else high_half w m

abbrev moved : Bool → ℕ → ℕ → ℕ
moved unshifted x s = if unshifted then x else sar x (s % 64)

run-flagged :
    (large unshifted : Bool) (s m : ℕ) (r : Regs)
    → (run (begin ++ flagged large unshifted s m) r 0
        ≡ (moved unshifted (upper large (r 0) m) s + 18446744073709551616 - sar (r 0) 63)
          % 18446744073709551616)
      × (run (begin ++ flagged large unshifted s m) r 8 ≡ r 0)
unfolding run exec
run-flagged true true s m r = (refl, refl)
run-flagged true false s m r = (refl, refl)
run-flagged false true s m r = (refl, refl)
run-flagged false false s m r = (refl, refl)

moved-sar : (x s : ℕ) → x < 18446744073709551616 → s < 64 → moved (s == 0) x s ≡ sar x s
moved-sar x zero hx hs = sym (sar_zero x hx)
moved-sar x (suc s) hx hs =
    let some_left : (suc s == 0) ≡ false = ground arith in
    let same : suc s % 64 ≡ suc s = omega arith in rw some_left (ap (sar x) same)

run_magic :
    (s m : ℕ) (r : Regs)
    → s < 64
    → corrected (r 0) m < 18446744073709551616
    → (run (begin ++ by_magic s m) r 0 ≡ estimate (r 0) s m)
      × (run (begin ++ by_magic s m) r 8 ≡ r 0)
run_magic s m r hs hc =
    let both = run-flagged (leb 9223372036854775808 m) (s == 0) s m r in
    (
      both.0
          ∙ ap (λ k. (k + 18446744073709551616 - sar (r 0) 63) % 18446744073709551616)
              (moved-sar (corrected (r 0) m) s hc hs),
      both.1,
    )

-- One more at the top of a quotient, one less at the bottom.
floor_of_ceiling : (x p q : ℕ) → 0 < x → 0 < p → (x + (p - 1)) / p ≡ q + 1 → (x - 1) / p ≡ q
floor_of_ceiling x p q hx hp e =
    let around : x + (p - 1) ≡ x - 1 + p = omega arith in
    omega (arith, add-div_right (x - 1) hp, sym e ∙ ap (λ k. k / p) around)

estimate-word_quotient :
    (d s m w : ℕ)
    → 0 < d
    → 0 < m
    → w < 18446744073709551616
    → signed_magic d ≡ some (s, m)
    → estimate w s m ≡ word_quotient w d
estimate-word_quotient d s m w hd hm hw h = elim (Bool-cases (ltb w 9223372036854775808)) [
  | inl positive ↦
      let small : w < 9223372036854775808 = ground arith in
      let exact = signed_magic-exact d w s m hd small h in
      let sign : sar w 63 ≡ 0 = ground arith in
      let less = div-le_self w d in
      ap (λ k. (k + 18446744073709551616 - sar w 63) % 18446744073709551616)
        (shifted_pos w m s small exact.0 ∙ exact.1.0)
      ∙ ap (λ k. (w / d + 18446744073709551616 - k) % 18446744073709551616) sign
      ∙ rw positive (omega (arith, less, small))
  | inr negative ↦
      let k : ℕ = 18446744073709551616 - w in
      let large : 9223372036854775808 ≤ w = ground arith in
      let n : ℕ = k - 1 in
      let k_at : k ≡ n + 1 = omega (arith, hw) in
      let w_at : w ≡ 18446744073709551616 - k = omega (arith, hw) in
      let exact = signed_magic-exact d n s m hd (omega (arith, large, hw)) h in
      let some_product : 0 < k * m = mul-pos (omega (arith, hw)) hm in
      let floor : (k * m - 1) / 2 ^ (64 + s) ≡ k / d =
        floor_of_ceiling (k * m) (2 ^ (64 + s)) (k / d) some_product
          (one-le-pow (64 + s) 2 (omega arith))
          (ap (λ j. (j * m + (2 ^ (64 + s) - 1)) / 2 ^ (64 + s)) k_at
            ∙ exact.1.1
            ∙ ap (λ j. j / d + 1) (sym k_at)) in
      let shifted : sar (corrected w m) s ≡ 18446744073709551615 - k / d =
        ap (λ j. sar (corrected j m) s) w_at
        ∙ shifted_neg k m s (omega (arith, hw)) (omega (arith, large)) hm exact.0
        ∙ ap (λ j. 18446744073709551615 - j) floor in
      let sign : sar w 63 ≡ 18446744073709551615 = ground arith in
      let less = div-le_self k d in
      ap (λ j. (j + 18446744073709551616 - sar w 63) % 18446744073709551616) shifted
      ∙ ap (λ j. (18446744073709551615 - k / d + 18446744073709551616 - j) % 18446744073709551616)
          sign
      ∙ rw negative (omega (arith, less, large, hw))
]

-- The last instructions by the sign and the kind of result.
abbrev closing : Bool → Bool → ℤ → List Op
closing negative want_rem v =
    (if negative then neg_reg 0 ∷ [] else [])
    ++ (if want_rem then imul_rax_imm v ∷ sub_reg_reg 8 0 ∷ mov_reg_reg 0 8 ∷ [] else [])

abbrev signed : Bool → ℕ → ℕ
signed negative q = if negative then (18446744073709551616 - q) % 18446744073709551616 else q

run-closing :
    (negative want_rem : Bool) (v : ℤ) (r : Regs)
    → run (closing negative want_rem v) r 0 ≡ (
        if want_rem
        then (r 8 + 18446744073709551616 - signed negative (r 0) * word64 v % 18446744073709551616)
          % 18446744073709551616
        else signed negative (r 0))
unfolding run exec
run-closing true true v r = refl
run-closing true false v r = refl
run-closing false true v r = refl
run-closing false false v r = refl

-- The last instructions after any that leave the quotient in rax and the number in r8.
pub concluded :
    (d : ℤ) (want_rem : Bool) (mid : List Op) (r : Regs)
    → run (begin ++ mid) r 0 ≡ word_quotient (r 0) (dabs d)
    → run (begin ++ mid) r 8 ≡ r 0
    → run (begin ++ (mid ++ finish d want_rem)) r 0 ≡ outcome (r 0) d want_rem
concluded d want_rem mid r q n =
    let final : ℕ → ℕ → ℕ = λ a b.
      if want_rem
      then (b + 18446744073709551616 - signed (is_negative d) a * word64 d % 18446744073709551616)
        % 18446744073709551616
      else signed (is_negative d) a in
    ap (λ ops. run ops r 0) (sym (append_assoc begin mid (finish d want_rem)))
    ∙ ap (λ k. k 0) (run-append (begin ++ mid) (finish d want_rem) r)
    ∙ run-closing (is_negative d) want_rem d (run (begin ++ mid) r)
    ∙ ap (λ a. final a (run (begin ++ mid) r 8)) q
    ∙ ap (final (word_quotient (r 0) (dabs d))) n

pub run_found :
    (d : ℤ) (want_rem : Bool) (s m : ℕ) (r : Regs)
    → 0 < dabs d
    → r 0 < 18446744073709551616
    → signed_magic (dabs d) ≡ some (s, m)
    → run (begin ++ (by_magic s m ++ finish d want_rem)) r 0 ≡ outcome (r 0) d want_rem
run_found d want_rem s m r hd hr h =
    let range = signed_magic-range (dabs d) s m h in
    let fits = signed_magic-exact (dabs d) 0 s m hd (omega arith) h in
    let middle =
      run_magic s m r (omega (arith, range.0)) (corrected-lt (r 0) m hr range.1 fits.0) in
    concluded d want_rem (by_magic s m) r
      (middle.0 ∙ estimate-word_quotient (dabs d) s m (r 0) hd range.1 hr h) middle.1
