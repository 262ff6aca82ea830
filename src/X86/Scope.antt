-- ===== src/X86/Scope.antt =====
-- The variables of src/x86.c: `Var`, `find_var`, `scope_push`, `scope_pop` and `push_var`. Of
-- `g_locals` the model keeps the first `g_nlocals` entries, the newest first, and of `g_scope` the
-- first `g_nscope`; the limits are those of the arrays. A pointer to a variable is the variable.
pub mod Stack
mod Tests
use lu_language.Prelude.{
  or_else, ℕ, ◌-◌, Bytes, List, Bool, [], ◌∷◌, ◌++◌, Option, none, some, length, drop, leb, ltb,
  streq, snprintf, codes, if◌then◌else◌,
}
use lu_language.X86.Types.{ValueType}

pub record Var : Type 0 where
  pub name : Bytes
  pub ty : ValueType
  pub is_array : Bool
  pub count : ℕ
  pub off : ℕ
  pub global : Bool
  pub reg : ℕ

pub record Names : Type 0 where
  pub locals : List Var
  pub marks : List ℕ
  pub globals : List Var

abbrev pub max_var : ℕ
max_var = 2048

abbrev pub max_scope : ℕ
max_scope = 512

-- A loop over variables up to the first of a name.
abbrev pub var_named : Bytes → List Var → Option Var
var_named name [] = none
var_named name (v ∷ vars) = if streq v.name name then some v else var_named name vars

unfoldable pub find_var : Option Bytes → Names → Option Var
find_var none t = none
find_var (some name) t = or_else (var_named name t.locals) (var_named name t.globals)

unfoldable pub scope_push : Names → Names
scope_push t =
    if ltb (length t.marks) max_scope then record t { marks = length t.locals ∷ t.marks } else t

-- The oldest variables stay.
abbrev pub popped : List ℕ → Names → Names
popped [] t = t
popped (m ∷ ms) t = record t { locals = drop (length t.locals - m) t.locals; marks = ms }

unfoldable pub scope_pop : Names → Names
scope_pop t = popped t.marks t

abbrev pub name_or : Option Bytes → Bytes
name_or none = codes "_v"
name_or (some name) = name

unfoldable pub new_var : Option Bytes → ValueType → Bool → ℕ → ℕ → Bool → Var
new_var name ty is_array count off global = record {
  name = snprintf 128 (name_or name);
  ty = ty;
  is_array = is_array;
  count = count;
  off = off;
  global = global;
  reg = 0;
}

-- `none` where the source returns null.
unfoldable pub push_var :
    Option Bytes → ValueType → Bool → ℕ → ℕ → Bool → Names → Option (Var × Names)
push_var name ty is_array count off global t =
    if leb max_var (length t.locals)
    then none
    else some (
      new_var name ty is_array count off global,
      record t { locals = new_var name ty is_array count off global ∷ t.locals },
    )
