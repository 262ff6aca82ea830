-- ===== src/X86/Divide/Found.antt =====
-- `signed_magic` of src/x86.c finds a multiplier.
use native.Mathlib.Nat.{
  mul-le-mul_left, div-lt_iff_lt-mul, div-add-mod, pow-suc, one-le-pow, pow-le-pow_right, mod-lt,
}
use lu_language.Prelude.{
  ℕ, zero, suc, ◌+◌, ◌-◌, ◌*◌, ◌/◌, ◌%◌, ◌^◌, ◌≤◌, ◌<◌, true, false, some, ◌==◌, ltb, ◌≡◌, refl, ap,
  ◌∙◌, inl, inr, Bool-cases, arith,
}
use lu_language.X86.Machine.{bit_and}
use lu_language.X86.Divide.{multiplier, refused, magic_on, signed_magic, is_pow2}
use lu_language.X86.Divide.Exact.{word_power}

-- Between two powers of 2 the shift of the lower one is accepted.
refused-between : (s d : ℕ) → s < 63 → 2 ^ s < d → d < 2 ^ (s + 1) → refused s d ≡ false
unfolding refused
refused-between s d hs low high =
    let some_d : 0 < d = omega (arith, low) in
    let within : s ≤ 63 = omega (arith, hs) in
    let small : 2 ^ s ≤ 2 ^ 63 = pow-le-pow_right (omega arith) within in
    let twice : 2 ^ (s + 1) ≡ 2 ^ s * 2 = ap (◌^◌ 2) (omega arith) ∙ pow-suc 2 s in
    let whole : 2 ^ (64 + s) ≡ 18446744073709551616 * 2 ^ s = omega (arith, word_power s, twice) in
    let most : 18446744073709551615 * (2 ^ s + 1) ≤ 18446744073709551615 * d =
      mul-le-mul_left 18446744073709551615 (omega (arith, low)) in
    let below : 2 ^ (64 + s) < 18446744073709551615 * d = omega (arith, whole, most, small) in
    let fits : 2 ^ (64 + s) / d < 18446744073709551615 = (div-lt_iff_lt-mul some_d).1 below in
    let parts = div-add-mod (2 ^ (64 + s)) d in
    let rest : 2 ^ (64 + s) % d < d = mod-lt (2 ^ (64 + s)) some_d in
    let product : (2 ^ (64 + s) / d + 1) * d ≡ d * (2 ^ (64 + s) / d) + d = omega arith in
    ground (arith, fits, parts, rest, product, high)

past : (s d t : ℕ) → s ≤ t → refused s d ≡ true → refused t d ≡ false → s + 1 ≤ t
past s d t h refusal e = elim (Bool-cases (s == t)) [
  | inl same ↦
      let at : s ≡ t = ground arith in
      let accepted : refused s d ≡ false = ap (λ i. refused i d) at ∙ e in
      absurd (ground (arith, refusal, accepted))
  | inr other ↦ ground arith
]

magic_on-found :
    (rounds s d t : ℕ)
    → s ≤ t
    → t < s + rounds
    → refused t d ≡ false
    → (r : ℕ × ℕ) × (magic_on rounds s d ≡ some r)
unfolding magic_on
magic_on-found zero s d t h b e = absurd (omega (arith, h, b))
magic_on-found (suc rounds) s d t h b e = elim (Bool-cases (refused s d)) [
  | inl refusal ↦
      let further : s + 1 ≤ t = past s d t h refusal e in
      let later = magic_on-found rounds (s + 1) d t further (omega (arith, b)) e in
      (later.0, rw refusal later.1)
  | inr accepted ↦ ((s, multiplier s d), rw accepted refl)
]

-- The powers of 2 around a number.
bracket :
    (bits d : ℕ) → 0 < d → d < 2 ^ bits → (s : ℕ) × ((s < bits) × ((2 ^ s ≤ d) × (d < 2 ^ (s + 1))))
bracket zero d hd h = absurd (omega (arith, hd, h))
bracket (suc bits) d hd h = elim (Bool-cases (ltb d (2 ^ bits))) [
  | inl less ↦
      let lower = bracket bits d hd (ground arith) in
      (lower.0, (omega (arith, lower.1.0), (lower.1.1.0, lower.1.1.1)))
  | inr more ↦
      let same : 2 ^ (bits + 1) ≡ 2 ^ suc bits = ap (◌^◌ 2) (omega arith) in
      (bits, (omega arith, (ground arith, omega (arith, same, h))))
]

bit_and_zero_right : (bits a : ℕ) → bit_and bits a 0 ≡ 0
unfolding bit_and
bit_and_zero_right zero a = refl
bit_and_zero_right (suc bits) a = omega (arith, bit_and_zero_right bits (a / 2))

bit_and_power : (bits k : ℕ) → bit_and bits (2 ^ k) (2 ^ k - 1) ≡ 0
unfolding bit_and
bit_and_power zero k = refl
bit_and_power (suc bits) zero = bit_and_zero_right (suc bits) 1
bit_and_power (suc bits) (suc k) =
    let double = pow-suc 2 k in
    let some_power = one-le-pow k 2 (omega arith) in
    let half : 2 ^ suc k / 2 ≡ 2 ^ k = omega (arith, double) in
    let half_less : (2 ^ suc k - 1) / 2 ≡ 2 ^ k - 1 = omega (arith, double, some_power) in
    let even : 2 ^ suc k % 2 ≡ 0 = omega (arith, double) in
    rw (even, half, half_less, bit_and_power bits k) (omega arith)

above_power : (s d : ℕ) → is_pow2 d ≡ false → 2 ^ s ≤ d → 2 ^ s < d
above_power s d odd h = elim (Bool-cases (2 ^ s == d)) [
  | inl same ↦
      let at : d ≡ 2 ^ s = ground arith in
      let none_common : bit_and 64 d (d - 1) ≡ 0 =
        ap (λ k. bit_and 64 k (k - 1)) at ∙ bit_and_power 64 s in
      absurd (ground (arith, none_common, odd))
  | inr other ↦ ground arith
]

-- A divisor below 2^32 that is no power of 2 has a multiplier.
pub signed_magic-found :
    (d : ℕ) → 0 < d → d < 4294967296 → is_pow2 d ≡ false → (r : ℕ × ℕ) × (signed_magic d ≡ some r)
unfolding signed_magic
signed_magic-found d hd hb odd =
    let around = bracket 32 d hd hb in
    let s : ℕ = around.0 in
    let low : 2 ^ s < d = above_power s d odd around.1.1.0 in
    magic_on-found 63 0 d s (omega arith) (omega (arith, around.1.0))
      (refused-between s d (omega (arith, around.1.0)) low around.1.1.1)
