-- ===== src/Lexer/Decimal.antt =====
-- The number of a block in src/lexer.c, `atoi` on the text and `%d` on the number.
use lu_language.Prelude.{
  ℕ, zero, suc, ◌+◌, ◌-◌, ◌*◌, ◌/◌, ◌%◌, ◌≤◌, ◌<◌, Bytes, true, false, [], ◌∷◌, ltb, ◌==◌, length,
  take_of_length_le, isdigit, snprintf, decimal_digits, ◌≡◌, refl, ap, ◌∙◌, inl, inr, Bool-cases,
  arith,
}
use lu_language.Lexer.Action.{emit}
use lu_language.Lexer.State.{Lexer, cur}
use lu_language.Lexer.Token.{tok_block_id}
use lu_language.Lexer.Rules.Text.{atoi_on, print_decimal, block_id}

isdigit-digit : (d : ℕ) → d < 10 → isdigit (b'0' + d) ≡ true
unfolding isdigit
isdigit-digit d h = ground arith

atoi_on-digit :
    (acc d : ℕ) (out : Bytes) → d < 10 → atoi_on acc ((b'0' + d) ∷ out) ≡ atoi_on (acc * 10 + d) out
unfolding atoi_on
atoi_on-digit acc d out h =
    let e : (b'0' + d) - b'0' ≡ d = omega arith in rw (isdigit-digit d h, e) refl

atoi_on-decimal_digits :
    (fuel n : ℕ) (out : Bytes) → n ≤ fuel → atoi_on 0 (decimal_digits fuel n out) ≡ atoi_on n out
unfolding decimal_digits
atoi_on-decimal_digits zero n out h =
    let e : 0 * 10 + n % 10 ≡ n = omega arith in
    atoi_on-digit 0 (n % 10) out (omega arith) ∙ ap (λ k. atoi_on k out) e
atoi_on-decimal_digits (suc fuel) n out h = elim (Bool-cases (ltb n 10)) [
  | inl small ↦
      let less : n < 10 = ground arith in
      let e : 0 * 10 + n ≡ n = omega arith in
      rw small (atoi_on-digit 0 n out less ∙ ap (λ k. atoi_on k out) e)
  | inr large ↦
      let more : 10 ≤ n = ground arith in
      let e : (n / 10) * 10 + n % 10 ≡ n = omega arith in
      rw large (
        atoi_on-decimal_digits fuel (n / 10) ((b'0' + n % 10) ∷ out) (omega arith)
        ∙ (atoi_on-digit (n / 10) (n % 10) out (omega arith) ∙ ap (λ k. atoi_on k out) e))
]

abbrev pow10 : ℕ → ℕ
pow10 zero = 1
pow10 (suc k) = pow10 k * 10

length-decimal_digits :
    (k fuel n : ℕ) (out : Bytes)
    → n < pow10 (suc k)
    → length (decimal_digits fuel n out) ≤ length out + suc k
unfolding decimal_digits
length-decimal_digits k zero n out h = omega arith
length-decimal_digits zero (suc fuel) n out h =
    let small : ltb n 10 ≡ true = ground arith in rw small (omega arith)
length-decimal_digits (suc k) (suc fuel) n out h = elim (Bool-cases (ltb n 10)) [
  | inl small ↦ rw small (omega arith)
  | inr large ↦ rw large (
      let ih = length-decimal_digits k fuel (n / 10) ((b'0' + n % 10) ∷ out) (omega arith) in
      omega (arith, ih))
]

-- A block number in the range of `int`, written without leading zeros and with no suffix behind
-- it, is the text of the block's token.
pub block_id-decimal_digits :
    (n : ℕ) (l : Lexer)
    → n < 2147483648
    → (cur l == b':') ≡ false
    → block_id (b'q' ∷ decimal_digits n n []) l ≡ emit tok_block_id (decimal_digits n n []) l
unfolding block_id print_decimal snprintf atoi_on
block_id-decimal_digits n l in_range plain =
    let short = length-decimal_digits 9 n n [] (omega arith) in
    let whole = take_of_length_le 31 (decimal_digits n n []) (omega (arith, short)) in
    rw (plain, atoi_on-decimal_digits n n [] (omega arith), whole) refl
