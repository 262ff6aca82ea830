-- ===== src/Blocks/Tests.antt =====
-- The registry on a few blocks.
use lu_language.Prelude.{pos, negsuc, int_eq, List, [], ◌∷◌, some, ◌≡◌, refl, arith}
use lu_language.Blocks.{BlockInfo, find_from, breg_find, new_block, breg_get_or_create}
use lu_language.Blocks.Registry.{
  IsValid, breg_get_or_create-finds, breg_get_or_create-keeps, breg_get_or_create-IsValid,
}

abbrev two_blocks : List BlockInfo
two_blocks = new_block (pos 7) ∷ new_block (negsuc 0) ∷ []

two_blocks-IsValid : IsValid two_blocks
unfolding find_from int_eq
two_blocks-IsValid = record { numbered = (refl, (refl, tt)); bounded = omega arith }

test_find : breg_find two_blocks (negsuc 0) ≡ some 1
unfolding breg_find find_from int_eq
test_find = refl

test_create : (breg_get_or_create two_blocks (pos 3)).0 ≡ some 2
unfolding breg_get_or_create breg_find find_from int_eq
test_create = refl

breg_get_or_create-finds_example :
    breg_find (breg_get_or_create two_blocks (pos 3)).1 (pos 3)
    ≡ (breg_get_or_create two_blocks (pos 3)).0
breg_get_or_create-finds_example = breg_get_or_create-finds two_blocks (pos 3)

breg_get_or_create-keeps_example :
    breg_find (breg_get_or_create two_blocks (pos 3)).1 (negsuc 0) ≡ some 1
breg_get_or_create-keeps_example =
    breg_get_or_create-keeps two_blocks (pos 3) (negsuc 0) 1 test_find

breg_get_or_create-IsValid_example : IsValid (breg_get_or_create two_blocks (pos 3)).1
breg_get_or_create-IsValid_example =
    breg_get_or_create-IsValid two_blocks (pos 3) two_blocks-IsValid
