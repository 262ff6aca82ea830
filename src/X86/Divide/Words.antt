-- ===== src/X86/Divide/Words.antt =====
-- The arithmetic of `gen_const_divmod` of src/x86.c on words.
use native.Mathlib.Nat.{div-div-eq-div-mul, mul-le-mul_left, mul-pos, mul-add, pow-suc}
use lu_language.Prelude.{
  ℕ, zero, suc, ◌+◌, ◌-◌, ◌*◌, ◌/◌, ◌%◌, ◌^◌, ◌≤◌, ◌<◌, true, false, ltb, leb, if◌then◌else◌, ◌≡◌,
  refl, ap, ◌∙◌, sym, inl, inr, Bool-cases, arith,
}
use lu_language.X86.Machine.{high_half, sar}

-- The upper half with the correction for a multiplier that is negative as a word.
abbrev pub corrected : ℕ → ℕ → ℕ
corrected w m =
    if leb 9223372036854775808 m then (high_half w m + w) % 18446744073709551616 else high_half w m

-- A product with the word's complement.
product_split :
    (k m : ℕ)
    → m < 18446744073709551616
    → k * (18446744073709551616 - m) + k * m ≡ k * 18446744073709551616
product_split k m h =
    let all : 18446744073709551616 - m + m ≡ 18446744073709551616 = omega arith in
    sym (mul-add k (18446744073709551616 - m) m) ∙ ap (◌*◌ k) all

product_zero : (n m : ℕ) → n ≡ 0 → n * m ≡ 0
product_zero n m e = ap (λ k. k * m) e ∙ omega arith

corrected_pos :
    (n m : ℕ)
    → n < 9223372036854775808
    → m < 18446744073709551616
    → corrected n m ≡ n * m / 18446744073709551616
corrected_pos n m hn hm =
    let rest : ℕ = 18446744073709551616 - m in
    let whole : n * rest + n * m ≡ n * 18446744073709551616 = omega (arith, product_split n m hm) in
    ground (arith, product_zero n m, product_zero n rest)

corrected_neg :
    (k m : ℕ)
    → 0 < k
    → k ≤ 9223372036854775808
    → 0 < m
    → m < 18446744073709551616
    → corrected (18446744073709551616 - k) m
      ≡ 18446744073709551615 - (k * m - 1) / 18446744073709551616
corrected_neg k m some_k hk some_m hm =
    let rest : ℕ = 18446744073709551616 - m in
    let split = product_split k m hm in
    let some_product : 0 < k * m = mul-pos some_k some_m in
    let some_rest : 0 < k * rest = mul-pos some_k (omega (arith, hm)) in
    let least : m * k ≤ m * 9223372036854775808 = mul-le-mul_left m hk in
    ground (arith, split, some_product, some_rest, least)

word_shift : (s : ℕ) → 18446744073709551616 * 2 ^ s ≡ 2 ^ (64 + s)
word_shift zero = refl
word_shift (suc s) =
    let left : 2 ^ (64 + suc s) ≡ 2 ^ (64 + s) * 2 =
      ap (◌^◌ 2) (omega arith) ∙ pow-suc 2 (64 + s) in
    omega (arith, left, pow-suc 2 s, word_shift s)

-- Both shifts in one.
shift_twice : (x s : ℕ) → x / 18446744073709551616 / 2 ^ s ≡ x / 2 ^ (64 + s)
shift_twice x s = div-div-eq-div-mul x 18446744073709551616 (2 ^ s) ∙ ap (◌/◌ x) (word_shift s)

pub shifted_pos :
    (n m s : ℕ)
    → n < 9223372036854775808
    → m < 18446744073709551616
    → sar (corrected n m) s ≡ n * m / 2 ^ (64 + s)
shifted_pos n m s hn hm =
    let e = corrected_pos n m hn hm in
    let most : n * m ≤ n * 18446744073709551616 = mul-le-mul_left n (omega arith) in
    let small : ltb (n * m / 18446744073709551616) 9223372036854775808 ≡ true =
      ground (arith, most) in
    rw (e, small) (shift_twice (n * m) s)

pub shifted_neg :
    (k m s : ℕ)
    → 0 < k
    → k ≤ 9223372036854775808
    → 0 < m
    → m < 18446744073709551616
    → sar (corrected (18446744073709551616 - k) m) s
      ≡ 18446744073709551615 - (k * m - 1) / 2 ^ (64 + s)
shifted_neg k m s some_k hk some_m hm =
    let e = corrected_neg k m some_k hk some_m hm in
    let most : k * m ≤ k * 18446744073709551616 = mul-le-mul_left k (omega arith) in
    let c : ℕ = (k * m - 1) / 18446744073709551616 in
    let some_product : 0 < k * m = mul-pos some_k some_m in
    let small : c < 9223372036854775808 = omega (arith, most, some_product) in
    let large : ltb (18446744073709551615 - c) 9223372036854775808 ≡ false =
      ground (arith, small) in
    let back : 18446744073709551615 - (18446744073709551615 - c) ≡ c = omega (arith, small) in
    rw (e, large, back) (ap (λ q. 18446744073709551615 - q) (shift_twice (k * m - 1) s))

pub corrected-lt :
    (w m : ℕ)
    → w < 18446744073709551616
    → 0 < m
    → m < 18446744073709551616
    → corrected w m < 18446744073709551616
corrected-lt w m hw some_m hm = elim (Bool-cases (ltb w 9223372036854775808)) [
  | inl positive ↦
      let small : w < 9223372036854775808 = ground arith in
      let most : w * m ≤ w * 18446744073709551616 = mul-le-mul_left w (omega arith) in
      rw (corrected_pos w m small hm) (omega (arith, most, small))
  | inr negative ↦
      let k : ℕ = 18446744073709551616 - w in
      let large : 9223372036854775808 ≤ w = ground arith in
      let w_at : w ≡ 18446744073709551616 - k = omega (arith, hw) in
      let e =
        ap (λ j. corrected j m) w_at
        ∙ corrected_neg k m (omega (arith, hw)) (omega (arith, large)) some_m hm in
      omega (arith, e)
]
