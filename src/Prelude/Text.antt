-- ===== src/Prelude/Text.antt =====
-- Byte strings: C strings as lists of byte values, and the string functions of the C library that
-- the program calls on them.
use Prim.Native.Nat.{ℕ, zero, suc, pred, ◌+◌, ◌%◌, ◌/◌}
use Prim.Native.Char.{code}
use Prim.Native.String.{String}
use mathlib.Core.Path.{◌≡◌, refl}
use mathlib.Core.Logic.{◌↔◌}
use mathlib.Core.Bool.{Bool, true, false, ◌&&◌, ◌||◌}
use mathlib.Core.List.{List, [], ◌∷◌, ◌++◌}
use native.Mathlib.Omega.{arith}
use lu_language.Prelude.Tests.{leb, ltb, ◌==◌, if◌then◌else◌}
use lu_language.Prelude.Lists.{take, drop, length}

abbrev pub Bytes : Type 0
Bytes = List ℕ

-- The bytes of a literal; every literal of the model is ASCII.
abbrev pub codes : String → Bytes
codes String.[] = []
codes (String.◌∷◌ c s) = code c ∷ codes s

abbrev within : ℕ → ℕ → ℕ → Bool
within lo hi c = leb lo c && leb c hi

-- <ctype.h> in the C locale.
unfoldable pub isdigit : ℕ → Bool
isdigit c = within b'0' b'9' c

unfoldable pub isalpha : ℕ → Bool
isalpha c = within b'a' b'z' c || within b'A' b'Z' c

unfoldable pub isalnum : ℕ → Bool
isalnum c = isalpha c || isdigit c

unfoldable pub isxdigit : ℕ → Bool
isxdigit c = isdigit c || within b'a' b'f' c || within b'A' b'F' c

-- `!strcmp(a, b)`
unfoldable pub streq : Bytes → Bytes → Bool
streq [] [] = true
streq (x ∷ xs) (y ∷ ys) = x == y && streq xs ys
streq _ _ = false

pub streq_iff : (a b : Bytes) → (streq a b ≡ true) ↔ (a ≡ b)
unfolding streq
streq_iff (x ∷ a) (y ∷ b) = ground (arith, streq_iff a b)
streq_iff _ _ = ground arith

-- `strncmp(s, p, strlen(p)) == 0`
unfoldable pub has_prefix : Bytes → Bytes → Bool
has_prefix [] s = true
has_prefix (x ∷ p) [] = false
has_prefix (x ∷ p) (y ∷ s) = x == y && has_prefix p s

pub has_prefix_split : (p s : Bytes) → has_prefix p s ≡ true → s ≡ p ++ drop (length p) s
unfolding has_prefix
has_prefix_split [] s h = refl
has_prefix_split (x ∷ p) [] h = cc
has_prefix_split (x ∷ p) (y ∷ s) h = ground (arith, has_prefix_split p s)

pub has_prefix-append : (p s : Bytes) → has_prefix p (p ++ s) ≡ true
unfolding has_prefix
has_prefix-append [] s = refl
has_prefix-append (x ∷ p) s = ground (arith, has_prefix-append p s)

-- The bytes that a C string function sees of a buffer: those before the first NUL.
unfoldable pub c_str : Bytes → Bytes
c_str [] = []
c_str (c ∷ cs) = if c == 0 then [] else c ∷ c_str cs

-- `snprintf` into a buffer of `size` bytes keeps at most `size - 1` of the text.
unfoldable pub snprintf : ℕ → Bytes → Bytes
snprintf size text = take (pred size) text

-- `%d`. The fuel is the number itself, whose digits are no more than its value plus one.
unfoldable pub decimal_digits : ℕ → ℕ → Bytes → Bytes
decimal_digits zero n out = (b'0' + n % 10) ∷ out
decimal_digits (suc fuel) n out =
    let onward = decimal_digits fuel (n / 10) ((b'0' + n % 10) ∷ out) in
    if ltb n 10 then (b'0' + n) ∷ out else onward
