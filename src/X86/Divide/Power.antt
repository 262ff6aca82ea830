-- ===== src/X86/Divide/Power.antt =====
-- Division by a power of 2 in `gen_const_divmod` of src/x86.c.
use native.Mathlib.Nat.{
  pow-le-pow_right, pow-suc, one-le-pow, div-le_self, div-eq_of_lt, div-eq-sub-div,
}
use lu_language.Prelude.{
  ℕ, zero, suc, ◌+◌, ◌-◌, ◌*◌, ◌/◌, ◌%◌, ◌^◌, ◌≤◌, ◌<◌, true, false, ◌==◌, ltb, if◌then◌else◌, ◌≡◌,
  refl, ap, ◌∙◌, sym, inl, inr, Bool-cases, arith,
}
use lu_language.X86.Machine.{bit_and, sar}
use lu_language.X86.Divide.{log_on}

pub bit_and_zero : (bits b : ℕ) → bit_and bits 0 b ≡ 0
unfolding bit_and
bit_and_zero zero b = refl
bit_and_zero (suc bits) b = omega (arith, bit_and_zero bits (b / 2))

-- A mask of ones.
pub bit_and_ones : (bits b : ℕ) → b < 2 ^ bits → bit_and bits (2 ^ bits - 1) b ≡ b
unfolding bit_and
bit_and_ones zero b h = omega (arith, h)
bit_and_ones (suc bits) b h =
    let some : 0 < 2 ^ bits = one-le-pow bits 2 (omega arith) in
    let double = pow-suc 2 bits in
    let half : (2 ^ suc bits - 1) / 2 ≡ 2 ^ bits - 1 = omega (arith, double, some) in
    let odd : (2 ^ suc bits - 1) % 2 ≡ 1 = omega (arith, double, some) in
    let rest = bit_and_ones bits (b / 2) (omega (arith, h, double)) in
    rw (odd, half, rest) (omega arith)

bit_square : (x : ℕ) → x < 2 → x * x ≡ x
bit_square zero h = refl
bit_square (suc zero) h = refl
bit_square (suc (suc x)) h = absurd (omega arith)

bit_and_self : (bits a : ℕ) → a < 2 ^ bits → bit_and bits a a ≡ a
unfolding bit_and
bit_and_self zero a h = omega (arith, h)
bit_and_self (suc bits) a h =
    let rest = bit_and_self bits (a / 2) (omega (arith, h, pow-suc 2 bits)) in
    let bit : a % 2 * (a % 2) ≡ a % 2 = bit_square (a % 2) (omega arith) in omega (arith, rest, bit)

above_zero : (a b x : ℕ) → a * b + 2 * x ≡ 0 → x ≡ 0
above_zero a b x h = omega (arith, h)

-- The test for a power of 2.
pub power_of_bit_and :
    (bits d : ℕ)
    → 0 < d
    → d < 2 ^ bits
    → bit_and bits d (d - 1) ≡ 0
    → (k : ℕ) × ((k < bits) × (d ≡ 2 ^ k))
unfolding bit_and
power_of_bit_and zero d hd hb h = absurd (omega (arith, hd, hb))
power_of_bit_and (suc bits) d hd hb h =
    let double = pow-suc 2 bits in
    elim (Bool-cases (d % 2 == 0)) [
      | inl even ↦
          let zero_bit : d % 2 ≡ 0 = ground arith in
          let half : (d - 1) / 2 ≡ d / 2 - 1 = omega (arith, zero_bit, hd) in
          let above : bit_and bits (d / 2) (d / 2 - 1) ≡ 0 =
            ap (bit_and bits (d / 2)) (sym half) ∙ above_zero (d % 2) ((d - 1) % 2) _ h in
          let less =
            power_of_bit_and bits (d / 2) (omega (arith, zero_bit, hd)) (omega (arith, hb, double))
              above in
          (
            suc less.0,
            (omega (arith, less.1.0), omega (arith, zero_bit, less.1.1, pow-suc 2 less.0)),
          )
      | inr odd ↦
          let one_bit : d % 2 ≡ 1 = ground arith in
          let half : (d - 1) / 2 ≡ d / 2 = omega (arith, one_bit) in
          let above : bit_and bits (d / 2) (d / 2) ≡ 0 =
            ap (bit_and bits (d / 2)) (sym half) ∙ above_zero (d % 2) ((d - 1) % 2) _ h in
          let none_above = sym (bit_and_self bits (d / 2) (omega (arith, hb, double))) ∙ above in
          (0, (omega arith, omega (arith, one_bit, none_above)))
    ]

pow_lt : (i j : ℕ) → i < j → 2 ^ i < 2 ^ j
pow_lt i j h =
    let up : 2 ^ suc i ≤ 2 ^ j = pow-le-pow_right (omega arith) h in
    omega (arith, up, pow-suc 2 i, one-le-pow i 2 (omega arith))

still_less : (i j : ℕ) → i ≤ j → ltb (2 ^ i) (2 ^ j) ≡ true → i + 1 ≤ j
still_less i j h e = elim (Bool-cases (i == j)) [
  | inl same ↦
      let equal : 2 ^ i ≡ 2 ^ j = ap (◌^◌ 2) (ground arith) in absurd (ground (arith, equal))
  | inr other ↦ ground arith
]

reached : (i j : ℕ) → i ≤ j → ltb (2 ^ i) (2 ^ j) ≡ false → i ≡ j
reached i j h e = elim (Bool-cases (ltb i j)) [
  | inl less ↦ let up = pow_lt i j (ground arith) in absurd (ground (arith, up))
  | inr same ↦ ground arith
]

-- The search for the exponent.
pub log_on_power :
    (rounds shift k : ℕ) → shift ≤ k → k < shift + rounds → log_on rounds shift (2 ^ k) ≡ k
unfolding log_on
log_on_power zero shift k h b = omega (arith, h, b)
log_on_power (suc rounds) shift k h b = elim (Bool-cases (ltb (2 ^ shift) (2 ^ k))) [
  | inl before ↦
      rw before (log_on_power rounds (shift + 1) k (still_less shift k h before) (omega (arith, b)))
  | inr there ↦ rw there (reached shift k h there)
]

-- Of a negative word, which the sum brings up to zero or above, or leaves negative.
rounded_up :
    (w k : ℕ)
    → w < 18446744073709551616
    → 9223372036854775808 ≤ w
    → 2 ^ k ≤ 9223372036854775808
    → sar ((w + (2 ^ k - 1)) % 18446744073709551616) k
      ≡ (18446744073709551616 - (18446744073709551616 - w) / 2 ^ k) % 18446744073709551616
rounded_up w k hw large hp =
    let p : ℕ = 2 ^ k in
    let j : ℕ = 18446744073709551616 - w in
    let some_p : 0 < p = one-le-pow k 2 (omega arith) in
    elim (Bool-cases (ltb j p)) [
      | inl short ↦
          let less : j < p = ground arith in
          let wrapped : (w + (p - 1)) % 18446744073709551616 ≡ p - 1 - j =
            omega (arith, less, hw, hp) in
          let small : ltb (p - 1 - j) 9223372036854775808 ≡ true = ground (arith, hp, some_p) in
          let none_left : (p - 1 - j) / p ≡ 0 = div-eq_of_lt (omega (arith, some_p)) in
          let none_there : j / p ≡ 0 = div-eq_of_lt less in
          ap (λ a. sar a k) wrapped ∙ rw (small, none_left, none_there) refl
      | inr long ↦
          let enough : p ≤ j = ground arith in
          let kept : (w + (p - 1)) % 18446744073709551616 ≡ 18446744073709551615 - (j - p) =
            omega (arith, enough, hw, hp, some_p) in
          let still : ltb (18446744073709551615 - (j - p)) 9223372036854775808 ≡ false =
            ground (arith, large, some_p, hw, enough) in
          let back : 18446744073709551615 - (18446744073709551615 - (j - p)) ≡ j - p =
            omega (arith, large, hw) in
          let one_more : j / p ≡ (j - p) / p + 1 = div-eq-sub-div some_p enough in
          let less = div-le_self (j - p) p in
          ap (λ a. sar a k) kept ∙ rw (still, back) (omega (arith, one_more, less, large, hw))
    ]

-- The number with the correction, shifted down.
pub shifted_power :
    (w k : ℕ)
    → w < 18446744073709551616
    → k < 64
    → 2 ^ k ≤ 9223372036854775808
    → sar
        ((w + bit_and 64 (sar w 63) ((2 ^ k - 1) % 18446744073709551616)) % 18446744073709551616)
        k
      ≡ (if ltb w 9223372036854775808
          then w / 2 ^ k
          else (18446744073709551616 - (18446744073709551616 - w) / 2 ^ k) % 18446744073709551616)
shifted_power w k hw hk hp = elim (Bool-cases (ltb w 9223372036854775808)) [
  | inl positive ↦
      let sign : sar w 63 ≡ 0 = ground arith in
      let none_added : bit_and 64 (sar w 63) ((2 ^ k - 1) % 18446744073709551616) ≡ 0 =
        ap (λ a. bit_and 64 a ((2 ^ k - 1) % 18446744073709551616)) sign ∙ bit_and_zero 64 _ in
      let same : (w + bit_and 64 (sar w 63) ((2 ^ k - 1) % 18446744073709551616))
            % 18446744073709551616
          ≡ w =
        omega (arith, none_added, hw) in
      ap (λ a. sar a k) same ∙ rw positive refl
  | inr negative ↦
      let p : ℕ = 2 ^ k in
      let sign : sar w 63 ≡ 2 ^ 64 - 1 = ground arith in
      let added : bit_and 64 (sar w 63) ((p - 1) % 18446744073709551616) ≡ p - 1 =
        ap (λ a. bit_and 64 a ((p - 1) % 18446744073709551616)) sign
        ∙ bit_and_ones 64 ((p - 1) % 18446744073709551616) (omega arith)
        ∙ omega (arith, hp) in
      ap (λ a. sar ((w + a) % 18446744073709551616) k) added
      ∙ rw negative (rounded_up w k hw (ground arith) hp)
]
