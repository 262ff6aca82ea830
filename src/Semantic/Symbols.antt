-- ===== src/Semantic/Symbols.antt =====
-- The symbol table: `Symbol` and `SymTable` of src/lu.h, `sym_add`, `sym_find` and
-- `sym_find_in_scope` of src/semantic.c. The entries are a list in the order of their index, and a
-- pointer to an entry is the entry; a null name or type is `none`.
pub mod Lookup
use lu_language.Prelude.{
  or_else, ℕ, ℤ, int_eq, Bytes, Bool, ◌&&◌, List, [], ◌∷◌, ◌++◌, Option, none, some, leb, length,
  take, if◌then◌else◌, streq, codes, String,
}

pub record Symbol : Type 0 where
  pub name : Bytes
  pub type : Bytes
  pub block_scope : ℤ
  pub is_ptr : Bool
  pub is_func : Bool
  pub is_const : Bool
  pub decl_line : ℕ

abbrev pub sym_max : ℕ
sym_max = 4096

abbrev pub SymTable : Type 0
SymTable = List Symbol

-- `strncpy` of at most `size - 1` bytes, and the NUL behind them.
unfoldable pub cut_name : Bytes → Bytes
cut_name name = take 127 name

unfoldable pub cut_type : Bytes → Bytes
cut_type type = take 31 type

abbrev pub text_or : String → Option Bytes → Bytes
text_or s none = codes s
text_or s (some v) = v

unfoldable pub new_symbol : Option Bytes → Option Bytes → ℤ → Bool → Bool → Bool → ℕ → Symbol
new_symbol name type scope is_ptr is_func is_const decl_line = record {
  name = cut_name (text_or "?" name);
  type = cut_type (text_or "auto" type);
  block_scope = scope;
  is_ptr = is_ptr;
  is_func = is_func;
  is_const = is_const;
  decl_line = decl_line;
}

-- A full table stays as it is (and the source warns).
unfoldable pub sym_add :
    SymTable → Option Bytes → Option Bytes → ℤ → Bool → Bool → Bool → ℕ → SymTable
sym_add st name type scope is_ptr is_func is_const decl_line =
    if leb sym_max (length st)
    then st
    else st ++ (new_symbol name type scope is_ptr is_func is_const decl_line ∷ [])

-- What an earlier comparison found, or else what the next one finds.
abbrev pub symbol_named : Symbol → Bytes → Option Symbol
symbol_named s name = if streq s.name name then some s else none

-- From the last entry to the first.
unfoldable pub sym_find : SymTable → Bytes → Option Symbol
sym_find [] name = none
sym_find (s ∷ st) name = or_else (sym_find st name) (symbol_named s name)

-- From the first entry to the last.
unfoldable pub sym_find_in_scope : SymTable → Bytes → ℤ → Option Symbol
sym_find_in_scope [] name scope = none
sym_find_in_scope (s ∷ st) name scope =
    if int_eq s.block_scope scope && streq s.name name
    then some s
    else sym_find_in_scope st name scope
