-- ===== src/Blocks.antt =====
-- The registry of `#q[n]` blocks: `BlockInfo` and `BlockRegistry` of src/lu.h, `breg_find` and
-- `breg_get_or_create` of src/util.c. A pointer into `entries` is its index.
pub mod Registry
mod Tests
use lu_language.Prelude.{
  ℕ, zero, suc, ◌+◌, ℤ, int_eq, Bytes, Bool, false, List, [], ◌∷◌, ◌++◌, Option, none, some, length,
  leb, if◌then◌else◌,
}

pub record BlockInfo : Type 0 where
  pub block_n : ℤ
  pub pr_expr : Bytes
  pub to_answer : Bytes
  pub has_pr : Bool
  pub has_to : Bool

abbrev pub block_reg_max : ℕ
block_reg_max = 512

-- The first entry from index `i` on.
unfoldable pub find_from : List BlockInfo → ℕ → ℤ → Option ℕ
find_from [] i block_n = none
find_from (b ∷ bs) i block_n =
    if int_eq b.block_n block_n then some i else find_from bs (suc i) block_n

unfoldable pub breg_find : List BlockInfo → ℤ → Option ℕ
breg_find br block_n = find_from br 0 block_n

-- `memset` to 0, and the number.
abbrev pub new_block : ℤ → BlockInfo
new_block n = record { block_n = n; pr_expr = []; to_answer = []; has_pr = false; has_to = false }

abbrev pub add_block : List BlockInfo → ℤ → Option ℕ × List BlockInfo
add_block br n =
    if leb block_reg_max (length br)
    then (none, br)
    else (some (length br), br ++ (new_block n ∷ []))

abbrev pub or_add : List BlockInfo → ℤ → Option ℕ → Option ℕ × List BlockInfo
or_add br n (some i) = (some i, br)
or_add br n none = add_block br n

unfoldable pub breg_get_or_create : List BlockInfo → ℤ → Option ℕ × List BlockInfo
breg_get_or_create br block_n = or_add br block_n (breg_find br block_n)
