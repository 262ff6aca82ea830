-- ===== src/X86/Divide/Correct.antt =====
-- `gen_const_divmod` of src/x86.c as a whole.
use mathlib.Core.Option.{some-injective, none-ne-some}
use lu_language.Prelude.{
  false, ℕ, ◌+◌, ◌-◌, ◌%◌, ◌^◌, ◌≤◌, ◌<◌, ℤ, pos, negsuc, Bool, true, List, ◌++◌, Option, none,
  some, ltb, ◌≡◌, refl, ap, ◌∙◌, sym, inl, inr, Bool-cases, arith,
}
use lu_language.X86.Machine.{Op, Regs, run, exec, sar, bit_and}
use lu_language.X86.Divide.{
  by_magic, signed_magic, log_on, dabs, is_pow2, begin, by_power, finish, by_found, divmod_ops,
}
use lu_language.X86.Divide.Found.{signed_magic-found}
use lu_language.X86.Divide.Quotient.{outcome, word_quotient, concluded, run_found}
use lu_language.X86.Divide.Power.{power_of_bit_and, log_on_power, shifted_power}
use lu_language.X86.Word.{IsInt32}

found :
    (d : ℤ) (want_rem : Bool) (ops : List Op) (r : Regs) (o : Option (ℕ × ℕ))
    → signed_magic (dabs d) ≡ o
    → by_found d want_rem o ≡ some ops
    → 0 < dabs d
    → r 0 < 18446744073709551616
    → run ops r 0 ≡ outcome (r 0) d want_rem
found d want_rem ops r none e h hd hr = absurd (none-ne-some ops h)
found d want_rem ops r (some (s, m)) e h hd hr =
    ap (λ k. run k r 0) (sym (some-injective _ ops h)) ∙ run_found d want_rem s m r hd hr e

run-by_power :
    (p shift : ℕ) (r : Regs)
    → (run (begin ++ by_power p shift) r 0
        ≡ sar
            ((r 0 + bit_and 64 (sar (r 0) 63) ((p - 1) % 18446744073709551616))
              % 18446744073709551616)
            (shift % 64))
      × (run (begin ++ by_power p shift) r 8 ≡ r 0)
unfolding run exec
run-by_power p shift r = (refl, refl)

power :
    (d : ℤ) (want_rem : Bool) (r : Regs)
    → r 0 < 18446744073709551616
    → 0 < dabs d
    → dabs d ≤ 9223372036854775808
    → is_pow2 (dabs d) ≡ true
    → run (begin ++ (by_power (dabs d) (log_on 64 0 (dabs d)) ++ finish d want_rem)) r 0
      ≡ outcome (r 0) d want_rem
power d want_rem r hr hd range two =
    let p : ℕ = dabs d in
    let found_k = power_of_bit_and 64 p hd (omega (arith, range)) (ground arith) in
    let k : ℕ = found_k.0 in
    let at : p ≡ 2 ^ k = found_k.1.1 in
    let shift : log_on 64 0 p % 64 ≡ k =
      ap (λ a. log_on 64 0 a % 64) at
      ∙ ap (λ a. a % 64) (log_on_power 64 0 k (omega arith) (omega (arith, found_k.1.0)))
      ∙ omega (arith, found_k.1.0) in
    let ran = run-by_power p (log_on 64 0 p) r in
    let first : ℕ → ℕ → ℕ = λ a b.
      sar
        ((r 0 + bit_and 64 (sar (r 0) 63) ((a - 1) % 18446744073709551616)) % 18446744073709551616)
        b in
    concluded d want_rem (by_power p (log_on 64 0 p)) r
      (ran.0
        ∙ ap (first p) shift
        ∙ ap (λ a. first a k) at
        ∙ shifted_power (r 0) k hr found_k.1.0 (omega (arith, at, range))
        ∙ ap (word_quotient (r 0)) (sym at))
      ran.1

dabs-le : (d : ℤ) → IsInt32 d → dabs d ≤ 2147483648
dabs-le (pos n) h = omega (arith, h)
dabs-le (negsuc n) h = omega (arith, h)

-- A sequence that is found for a divisor of 32 bits leaves in rax the
-- quotient of the word in rax by the divisor, rounded towards zero, or the number less quotient
-- times divisor: for both signs of the number and of the divisor, powers of 2 and others.
divmod_ops-outcome :
    (d : ℤ) (want_rem : Bool) (ops : List Op) (r : Regs)
    → IsInt32 d
    → r 0 < 18446744073709551616
    → divmod_ops d want_rem ≡ some ops
    → run ops r 0 ≡ outcome (r 0) d want_rem
unfolding divmod_ops
divmod_ops-outcome d want_rem ops r hd hr h = elim (Bool-cases (ltb (dabs d) 2)) [
  | inl tiny ↦
      let refused_here : divmod_ops d want_rem ≡ none = rw tiny refl in
      absurd (none-ne-some ops (sym refused_here ∙ h))
  | inr large ↦ elim (Bool-cases (is_pow2 (dabs d))) [
    | inl two ↦
        let sought : divmod_ops d want_rem
            ≡ some (begin ++ (by_power (dabs d) (log_on 64 0 (dabs d)) ++ finish d want_rem)) =
          rw (large, two) refl in
        ap (λ k. run k r 0) (sym (some-injective _ ops (sym sought ∙ h)))
        ∙ power d want_rem r hr (ground arith) (omega (arith, dabs-le d hd)) two
    | inr odd ↦
        let sought : divmod_ops d want_rem ≡ by_found d want_rem (signed_magic (dabs d)) =
          rw (large, odd) refl in
        found d want_rem ops r (signed_magic (dabs d)) refl (sym sought ∙ h) (ground arith) hr
  ]
]

found_for :
    (d : ℤ) (want_rem : Bool) (o : Option (ℕ × ℕ)) (r : ℕ × ℕ)
    → o ≡ some r
    → (ops : List Op) × (by_found d want_rem o ≡ some ops)
found_for d want_rem o r e =
    (begin ++ (by_magic r.0 r.1 ++ finish d want_rem), ap (by_found d want_rem) e)

-- The code finds a sequence.
divmod_ops-found :
    (d : ℤ) (want_rem : Bool)
    → IsInt32 d
    → 2 ≤ dabs d
    → (ops : List Op) × (divmod_ops d want_rem ≡ some ops)
unfolding divmod_ops
divmod_ops-found d want_rem hd large =
    let not_tiny : ltb (dabs d) 2 ≡ false = ground (arith, large) in
    elim (Bool-cases (is_pow2 (dabs d))) [
      | inl two ↦ (
        begin ++ (by_power (dabs d) (log_on 64 0 (dabs d)) ++ finish d want_rem),
        rw (not_tiny, two) refl,
      )
      | inr odd ↦
          let magic =
            signed_magic-found (dabs d) (omega (arith, large)) (omega (arith, dabs-le d hd)) odd in
          let ops = found_for d want_rem (signed_magic (dabs d)) magic.0 magic.1 in
          (ops.0, rw (not_tiny, odd) ops.1)
    ]

-- For every divisor of 32 bits but 0, 1 and -1 the code finds a sequence, and that sequence leaves
-- in rax the quotient of the word in rax by the divisor, rounded towards zero, or the number less
-- quotient times divisor: for both signs of the number and of the divisor.
pub divmod_ops-divides :
    (d : ℤ) (want_rem : Bool) (r : Regs)
    → IsInt32 d
    → 2 ≤ dabs d
    → r 0 < 18446744073709551616
    → (ops : List Op) × ((divmod_ops d want_rem ≡ some ops)
        × (run ops r 0 ≡ outcome (r 0) d want_rem))
divmod_ops-divides d want_rem r hd large hr =
    let seq = divmod_ops-found d want_rem hd large in
    (seq.0, (seq.1, divmod_ops-outcome d want_rem seq.0 r hd hr seq.1))
