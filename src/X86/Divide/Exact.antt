-- ===== src/X86/Divide/Exact.antt =====
-- The multipliers of src/x86.c give exact quotients.
use native.Mathlib.Nat.{
  mul-le-mul_left, lt_of_mul-lt-mul_left, le_of_mul-le-mul_left, div-eq_of_lt-le, div-add-mod,
  lt-mul-div-succ, mul-pos, pow-suc, one-le-pow,
}
use mathlib.Core.Option.{some-injective, none-ne-some}
use lu_language.Prelude.{
  ℕ, zero, suc, ◌+◌, ◌-◌, ◌*◌, ◌/◌, ◌^◌, ◌≤◌, ◌<◌, false, some, ◌≡◌, refl, ap, ◌∙◌, sym, inl, inr,
  Bool-cases, arith,
}
use lu_language.X86.Divide.{multiplier, excess, refused, magic_on, signed_magic}

module _ (d m p e : ℕ) (some_d : 0 < d) (over : m * d ≡ p + e) (some_e : 0 < e) where
  product : (n : ℕ) → d * (n * m) ≡ n * p + n * e
  product n =
      let around : d * (n * m) ≡ n * (m * d) = omega arith in around ∙ ap (◌*◌ n) over ∙ omega arith

  below : (n : ℕ) → n / d * p ≤ n * m
  below n =
      let more : n / d * p ≤ n / d * (m * d) = mul-le-mul_left (n / d) (omega (arith, over)) in
      let floor : m * (d * (n / d)) ≤ m * n = mul-le-mul_left m (omega (arith, div-add-mod n d)) in
      omega (arith, more, floor)

  ceiling : (n : ℕ) → p * (n + 1) ≤ d * ((n / d + 1) * p)
  ceiling n =
      let next : p * (n + 1) ≤ p * (d * (n / d + 1)) =
        mul-le-mul_left p (omega (arith, lt-mul-div-succ n some_d)) in
      omega (arith, next)

  above : (n : ℕ) → n * e < p → n * m < (n / d + 1) * p
  above n h = lt_of_mul-lt-mul_left d (omega (arith, product n, ceiling n, h))

  above_le : (n : ℕ) → n * e ≤ p → n * m ≤ (n / d + 1) * p
  above_le n h = le_of_mul-le-mul_left (omega (arith, product n, ceiling n, h)) some_d

  positive : (n : ℕ) → 0 < p → n * e < p → n * m / p ≡ n / d
  positive n hp h = div-eq_of_lt-le p (below n) (above n h)

  negative : (n : ℕ) → 0 < n → n * e ≤ p → (n * m + (p - 1)) / p ≡ n / d + 1
  negative n hn h =
      let floor : p * (d * (n / d)) ≤ p * n = mul-le-mul_left p (omega (arith, div-add-mod n d)) in
      let some_product : 0 < n * e = mul-pos hn some_e in
      let strictly : n / d * p < n * m =
        lt_of_mul-lt-mul_left d (omega (arith, floor, some_product, product n)) in
      div-eq_of_lt-le p (omega (arith, strictly)) (omega (arith, above_le n h, strictly))

-- What the loop accepts.
record Accepted (d s m : ℕ) : Type 0 where
  exactly : m ≡ multiplier s d
  fits : m < 18446744073709551616
  some_excess : 0 < excess s d
  small_excess : excess s d ≤ 2 ^ (s + 1)

accepts : (s d : ℕ) → refused s d ≡ false → Accepted d s (multiplier s d)
unfolding refused
accepts s d h = record {
  exactly = refl;
  fits = ground arith;
  some_excess = ground arith;
  small_excess = ground arith;
}

magic_on-Accepted : (rounds s d : ℕ) (r : ℕ × ℕ) → magic_on rounds s d ≡ some r → Accepted d r.0 r.1
unfolding magic_on
magic_on-Accepted zero s d r h = absurd (none-ne-some r h)
magic_on-Accepted (suc rounds) s d r h = elim (Bool-cases (refused s d)) [
  | inl e ↦
      let onward : magic_on (suc rounds) s d ≡ magic_on rounds (s + 1) d = rw e refl in
      magic_on-Accepted rounds (s + 1) d r (sym onward ∙ h)
  | inr e ↦
      let here : magic_on (suc rounds) s d ≡ some (s, multiplier s d) = rw e refl in
      rw (sym (some-injective (s, multiplier s d) r (sym here ∙ h))) (accepts s d e)
]

pub word_power : (s : ℕ) → 2 ^ (64 + s) ≡ 9223372036854775808 * 2 ^ (s + 1)
word_power zero = refl
word_power (suc s) =
    let left : 2 ^ (64 + suc s) ≡ 2 ^ (64 + s) * 2 =
      ap (◌^◌ 2) (omega arith) ∙ pow-suc 2 (64 + s) in
    let right : 2 ^ (suc s + 1) ≡ 2 ^ (s + 1) * 2 = ap (◌^◌ 2) (omega arith) ∙ pow-suc 2 (s + 1) in
    omega (arith, left, right, word_power s)

small_product : (n s e : ℕ) → n ≤ 9223372036854775808 → e ≤ 2 ^ (s + 1) → n * e ≤ 2 ^ (64 + s)
small_product n s e hn he =
    let less : n * e ≤ n * 2 ^ (s + 1) = mul-le-mul_left n he in
    let least : 2 ^ (s + 1) * n ≤ 2 ^ (s + 1) * 9223372036854775808 =
      mul-le-mul_left (2 ^ (s + 1)) hn in
    omega (arith, less, least, word_power s)

-- The multiplier that is found for a divisor is below 2^64, and with it and the shift the quotient
-- of every signed word is exact: for n from 0 to 2^63 - 1 the product shifted down is n / d, and
-- for -(n + 1) it is one less than the quotient -((n + 1) / d), which the code then adds.
pub signed_magic-exact :
    (d n s m : ℕ)
    → 0 < d
    → n < 9223372036854775808
    → signed_magic d ≡ some (s, m)
    → (m < 18446744073709551616)
      × ((n * m / 2 ^ (64 + s) ≡ n / d)
          × (((n + 1) * m + (2 ^ (64 + s) - 1)) / 2 ^ (64 + s) ≡ (n + 1) / d + 1))
unfolding signed_magic
signed_magic-exact d n s m hd hn h =
    let a = magic_on-Accepted 63 0 d (s, m) h in
    let p = 2 ^ (64 + s) in
    let e = excess s d in
    let over : m * d ≡ p + e = rw a.exactly (omega (arith, a.some_excess)) in
    let one_more = small_product (n + 1) s e (omega (arith, hn)) a.small_excess in
    let some_p : 0 < p = one-le-pow (64 + s) 2 (omega arith) in
    (
      a.fits,
      (
        positive d m p e hd over a.some_excess n some_p (omega (arith, one_more, a.some_excess)),
        negative d m p e hd over a.some_excess (n + 1) (omega arith) one_more,
      ),
    )

magic_on-range :
    (rounds s d : ℕ) (r : ℕ × ℕ) → magic_on rounds s d ≡ some r → (r.0 < s + rounds) × (0 < r.1)
unfolding magic_on
magic_on-range zero s d r h = absurd (none-ne-some r h)
magic_on-range (suc rounds) s d r h = elim (Bool-cases (refused s d)) [
  | inl e ↦
      let onward : magic_on (suc rounds) s d ≡ magic_on rounds (s + 1) d = rw e refl in
      let later = magic_on-range rounds (s + 1) d r (sym onward ∙ h) in
      (omega (arith, later.0), later.1)
  | inr e ↦
      let here : magic_on (suc rounds) s d ≡ some (s, multiplier s d) = rw e refl in
      rw (sym (some-injective (s, multiplier s d) r (sym here ∙ h))) (omega arith, omega arith)
]

pub signed_magic-range : (d s m : ℕ) → signed_magic d ≡ some (s, m) → (s < 63) × (0 < m)
unfolding signed_magic
signed_magic-range d s m h = magic_on-range 63 0 d (s, m) h
