-- ===== src/X86/Divide/Tests.antt =====
-- Division by 7 and the remainder by -7.
use lu_language.Prelude.{negsuc, List, true, ◌++◌, some, ◌≡◌, refl, arith}
use lu_language.X86.Machine.{Op, bit_and, run}
use lu_language.X86.Divide.{
  log_on, magic_on, refused, signed_magic, begin, by_magic, finish, divmod_ops,
}
use lu_language.X86.Divide.Quotient.{outcome}
use lu_language.X86.Divide.Correct.{divmod_ops-divides}

seven : signed_magic 7 ≡ some (1, 5270498306774157605)
unfolding signed_magic magic_on refused
seven = refl

abbrev remainder : List Op
remainder = begin ++ (by_magic 1 5270498306774157605 ++ finish (negsuc 6) true)

remainder_found : divmod_ops (negsuc 6) true ≡ some remainder
unfolding divmod_ops signed_magic magic_on refused bit_and log_on
remainder_found = refl

-- 100 less (-14) * (-7)
two_left : outcome 100 (negsuc 6) true ≡ 2
two_left = refl

divmod_ops-divides_example :
    (ops : List Op) × ((divmod_ops (negsuc 6) true ≡ some ops)
      × (run ops (λ j. 100) 0 ≡ outcome 100 (negsuc 6) true))
divmod_ops-divides_example =
    divmod_ops-divides (negsuc 6) true (λ j. 100) (omega arith) (omega arith) (omega arith)
