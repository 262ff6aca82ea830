-- ===== src/X86/Scope/Tests.antt =====
-- Variables in nested scopes.
use lu_language.Prelude.{
  or_else, List, false, [], ◌∷◌, some, codes, streq, snprintf, ◌≡◌, refl, arith,
}
use lu_language.X86.Types.{type_int, type_i64}
use lu_language.X86.Scope.{find_var, scope_push, new_var, push_var, var_named}
use lu_language.X86.Scope.Stack.{
  base, Op, opens, declares, acts, lookup, names_of, steps, find_var-steps,
}

-- `x` outside, then inside.
abbrev shadowing : List Op
shadowing =
    declares (some (codes "x")) type_int false 0 8 false
    ∷ opens
    ∷ declares (some (codes "x")) type_i64 false 0 16 false
    ∷ []

shadowed :
    find_var (some (codes "x")) (steps shadowing (names_of (base []) []))
    ≡ some (new_var (some (codes "x")) type_i64 false 0 16 false)
unfolding find_var scope_push push_var new_var snprintf streq
shadowed = refl

find_var-steps_example :
    find_var (some (codes "x")) (steps shadowing (names_of (base []) []))
    ≡ or_else (lookup (codes "x") (acts shadowing (base []))) (var_named (codes "x") [])
find_var-steps_example =
    find_var-steps shadowing (base []) [] (codes "x")
      (omega arith, (omega arith, (omega arith, tt)))
