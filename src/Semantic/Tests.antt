-- ===== src/Semantic/Tests.antt =====
-- The symbol table and the types on small inputs.
use lu_language.Prelude.{
  ℕ, ◌≡◌, refl, ℤ, pos, negsuc, int_eq, Bytes, true, false, ◌&&◌, [], ◌∷◌, ◌++◌, none, some, ltb,
  length, take, if◌then◌else◌, streq, codes, arith, zero, suc,
}
use lu_language.Semantic.Symbols.{
  Symbol, SymTable, cut_name, cut_type, text_or, new_symbol, sym_add, sym_find, sym_find_in_scope,
}
use lu_language.Semantic.Symbols.Lookup.{IsValid, sym_find-sym_add, sym_add-IsValid, sym_find_long}
use lu_language.Semantic.Types.{
  is, numeric, both_text, pointer_text, is_builtin, enum_int, types_compatible,
}
use lu_language.Semantic.Types.Symmetry.{types_compatible_comm}

abbrev entry : Bytes → Bytes → ℤ → Symbol
entry name type scope = record {
  name = name;
  type = type;
  block_scope = scope;
  is_ptr = false;
  is_func = false;
  is_const = false;
  decl_line = 1;
}

abbrev table : SymTable
table = entry (codes "x") (codes "int") (negsuc 0) ∷ entry (codes "y") (codes "str") (pos 4) ∷ []

table-IsValid : IsValid table
table-IsValid = record {
  entries_fit = (
    record { name_fits = omega arith; type_fits = omega arith },
    (record { name_fits = omega arith; type_fits = omega arith }, tt),
  );
  bounded = omega arith;
}

abbrev extended : SymTable
extended = sym_add table (some (codes "x")) (some (codes "float")) (pos 4) false false false 9

test_newest :
    sym_find extended (codes "x")
    ≡ some (new_symbol (some (codes "x")) (some (codes "float")) (pos 4) false false false 9)
unfolding sym_add sym_find new_symbol cut_name cut_type streq
test_newest = refl

test_oldest :
    sym_find_in_scope extended (codes "x") (negsuc 0)
    ≡ some (entry (codes "x") (codes "int") (negsuc 0))
unfolding sym_add sym_find_in_scope new_symbol cut_name cut_type streq int_eq
test_oldest = refl

test_enum : types_compatible (some (codes "Color")) (some (codes "int")) ≡ true
unfolding types_compatible is numeric both_text pointer_text enum_int is_builtin streq
test_enum = refl

test_void : types_compatible (some (codes "void")) (some (codes "int")) ≡ false
unfolding types_compatible is numeric both_text pointer_text enum_int is_builtin streq
test_void = refl

-- A name of 128 bytes.
abbrev times : ℕ → Bytes → Bytes
times zero b = []
times (suc n) b = b ++ times n b

abbrev long_name : Bytes
long_name = times 16 (codes "abcdefgh")

sym_find-sym_add_example : sym_find extended (codes "x") ≡ (
    if ltb (length table) 4096 && streq (take 127 (text_or "?" (some (codes "x")))) (codes "x")
    then some (new_symbol (some (codes "x")) (some (codes "float")) (pos 4) false false false 9)
    else sym_find table (codes "x"))
sym_find-sym_add_example =
    sym_find-sym_add table (some (codes "x")) (some (codes "float")) (pos 4) false false false 9
      (codes "x")

sym_add-IsValid_example : IsValid extended
sym_add-IsValid_example =
    sym_add-IsValid table (some (codes "x")) (some (codes "float")) (pos 4) false false false 9
      table-IsValid

sym_find_long_example :
    sym_find
      (sym_add table (some long_name) (some (codes "int")) (negsuc 0) false false false 9)
      long_name
    ≡ none
sym_find_long_example =
    sym_find_long
      (sym_add table (some long_name) (some (codes "int")) (negsuc 0) false false false 9) long_name
      (sym_add-IsValid table (some long_name) (some (codes "int")) (negsuc 0) false false false 9
        table-IsValid)
      (omega arith)

types_compatible_comm_example :
    (types_compatible (some (codes "Color")) (some (codes "int"))
      ≡ types_compatible (some (codes "int")) (some (codes "Color")))
    × (types_compatible (some (codes "Color")) (some (codes "Color")) ≡ true)
types_compatible_comm_example = types_compatible_comm (some (codes "Color")) (some (codes "int"))
