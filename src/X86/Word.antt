-- ===== src/X86/Word.antt =====
-- Machine words and their bytes: what `memcpy` of an `int32_t` or `int64_t` writes on the host of
-- src/x86.c, and the number that a bit pattern stands for.
use lu_language.Prelude.{
  ℕ, zero, suc, ◌+◌, ◌-◌, ◌*◌, ◌/◌, ◌%◌, ◌<◌, ℤ, pos, negsuc, Bytes, Bool, true, [], ◌∷◌, ◌++◌,
  Option, none, some, ltb, if◌then◌else◌, ◌≡◌, ap, arith,
}

-- The low bits of an integer, in two's complement.
abbrev pub word8 : ℤ → ℕ
word8 (pos n) = n % 256
word8 (negsuc n) = 255 - n % 256

abbrev pub word32 : ℤ → ℕ
word32 (pos n) = n % 4294967296
word32 (negsuc n) = 4294967295 - n % 4294967296

abbrev pub word64 : ℤ → ℕ
word64 (pos n) = n % 18446744073709551616
word64 (negsuc n) = 18446744073709551615 - n % 18446744073709551616

abbrev pub signed8 : ℕ → ℤ
signed8 w = if ltb w 128 then pos w else negsuc (255 - w)

abbrev pub signed32 : ℕ → ℤ
signed32 w = if ltb w 2147483648 then pos w else negsuc (4294967295 - w)

abbrev pub signed64 : ℕ → ℤ
signed64 w = if ltb w 9223372036854775808 then pos w else negsuc (18446744073709551615 - w)

abbrev pub le4 : ℕ → Bytes
le4 w = w % 256 ∷ w / 256 % 256 ∷ w / 65536 % 256 ∷ w / 16777216 % 256 ∷ []

unfoldable pub le8 : ℕ → Bytes
le8 w = le4 (w % 4294967296) ++ le4 (w / 4294967296)

abbrev pub read4 : Bytes → Option (ℕ × Bytes)
read4 (a ∷ b ∷ c ∷ d ∷ rest) = some (a + 256 * b + 65536 * c + 16777216 * d, rest)
read4 _ = none

-- The ranges of `int8_t`, `int32_t` and `int64_t`.
abbrev pub IsInt8 : ℤ → Type 0
IsInt8 (pos n) = n < 128
IsInt8 (negsuc n) = n < 128

abbrev pub IsInt32 : ℤ → Type 0
IsInt32 (pos n) = n < 2147483648
IsInt32 (negsuc n) = n < 2147483648

abbrev pub IsInt64 : ℤ → Type 0
IsInt64 (pos n) = n < 9223372036854775808
IsInt64 (negsuc n) = n < 9223372036854775808

unfoldable pub imm8_ok : ℤ → Bool
imm8_ok (pos n) = ltb n 128
imm8_ok (negsuc n) = ltb n 128

unfoldable pub imm32_ok : ℤ → Bool
imm32_ok (pos n) = ltb n 2147483648
imm32_ok (negsuc n) = ltb n 2147483648

-- Negation.
abbrev pub neg : ℤ → ℤ
neg (pos zero) = pos 0
neg (pos (suc n)) = negsuc n
neg (negsuc n) = pos (n + 1)

pub signed8-word8 : (v : ℤ) → imm8_ok v ≡ true → signed8 (word8 v) ≡ v
unfolding imm8_ok
signed8-word8 (pos n) h = ground arith
signed8-word8 (negsuc n) h = ground arith

pub signed32-word32 : (v : ℤ) → IsInt32 v → signed32 (word32 v) ≡ v
signed32-word32 (pos n) h = ground arith
signed32-word32 (negsuc n) h = ground arith

pub read4-le4 : (w : ℕ) (rest : Bytes) → w < 4294967296 → read4 (le4 w ++ rest) ≡ some (w, rest)
read4-le4 w rest h = ap (λ k. some (k, rest)) (omega arith)

pub word32-lt : (v : ℤ) → word32 v < 4294967296
word32-lt (pos n) = omega arith
word32-lt (negsuc n) = omega arith
