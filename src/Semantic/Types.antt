-- ===== src/Semantic/Types.antt =====
-- The types of expressions: `types_compatible` of src/semantic.c.
pub mod Symmetry
use lu_language.Prelude.{
  Bytes, Bool, true, false, not, ◌&&◌, ◌||◌, Option, none, some, if◌then◌else◌, streq, codes,
  String,
}

-- `!strcmp(a, s)` for a literal `s`.
unfoldable pub is : String → Bytes → Bool
is s a = streq a (codes s)

-- Numeric widening.
unfoldable pub numeric : Bytes → Bytes → Bool
numeric a b =
    (is "int" a && is "int64" b)
    || (is "int64" a && is "int" b)
    || (is "int" a && is "float" b)
    || (is "float" a && is "int" b)
    || (is "byte" a && is "int" b)
    || (is "int" a && is "byte" b)

-- Both are `char *`.
unfoldable pub both_text : Bytes → Bytes → Bool
both_text a b = (is "id" a && is "str" b) || (is "str" a && is "id" b)

-- A C pointer used as a text.
unfoldable pub pointer_text : Bytes → Bytes → Bool
pointer_text a b =
    (is "str" a && is "ptr" b)
    || (is "id" a && is "ptr" b)
    || (is "ptr" a && is "str" b)
    || (is "ptr" a && is "id" b)

unfoldable pub is_builtin : Bytes → Bool
is_builtin a =
    is "int" a
    || is "int64" a
    || is "float" a
    || is "byte" a
    || is "bool" a
    || is "void" a
    || is "str" a
    || is "id" a
    || is "ptr" a
    || is "auto" a
    || is "type" a
    || is "ip" a
    || is "cor" a
    || is "msg" a
    || is "lib" a

-- An enum is stored as an int.
unfoldable pub enum_int : Bytes → Bytes → Bool
enum_int a b = (not (is_builtin a) && is "int" b) || (not (is_builtin b) && is "int" a)

-- A null type is unknown, and compatible with all.
unfoldable pub types_compatible : Option Bytes → Option Bytes → Bool
types_compatible none b = true
types_compatible (some a) none = true
types_compatible (some a) (some b) =
    streq a b || numeric a b || both_text a b || pointer_text a b || enum_int a b
