-- ===== src/X86/Types.antt =====
-- The types of src/x86.c: `TyKind`, `Field`, `Type`, `mk_prim`, `types_init`, `mk_ptr` and the tests
-- on a type. `void *` has no pointee.
use lu_language.Prelude.{ℕ, Bytes, Bool, true, false, ◌++◌, take, codes}

pub data TyKind : Type 0 where
  ty_void ty_int ty_i64 ty_byte ty_bool ty_str ty_ptr ty_struct ty_float : TyKind

-- A struct has its fields in order; `count` is above 0 for an array.
mutual
  pub data ValueType : Type 0 where
    prim : TyKind → ℕ → Bytes → ValueType
    ptr : ValueType → Bytes → ValueType
    ptr_void : Bytes → ValueType
    struct : ℕ → Bytes → Fields → ValueType

  pub data Fields : Type 0 where
    nil : Fields
    field : Bytes → ℕ → ValueType → ℕ → Fields → Fields

abbrev pub kind_of : ValueType → TyKind
kind_of (prim k size name) = k
kind_of (ptr base name) = ty_ptr
kind_of (ptr_void name) = ty_ptr
kind_of (struct size name fields) = ty_struct

abbrev pub size_of : ValueType → ℕ
size_of (prim k size name) = size
size_of (ptr base name) = 8
size_of (ptr_void name) = 8
size_of (struct size name fields) = size

abbrev pub name_of : ValueType → Bytes
name_of (prim k size name) = name
name_of (ptr base name) = name
name_of (ptr_void name) = name
name_of (struct size name fields) = name

abbrev pub type_void : ValueType
type_void = prim ty_void 0 (codes "void")

abbrev pub type_int : ValueType
type_int = prim ty_int 4 (codes "int")

abbrev pub type_i64 : ValueType
type_i64 = prim ty_i64 8 (codes "int64")

abbrev pub type_byte : ValueType
type_byte = prim ty_byte 1 (codes "byte")

abbrev pub type_bool : ValueType
type_bool = prim ty_bool 1 (codes "bool")

abbrev pub type_str : ValueType
type_str = prim ty_str 8 (codes "str")

abbrev pub type_float : ValueType
type_float = prim ty_float 4 (codes "float")

-- The name of a pointer keeps 62 bytes of the pointee's.
unfoldable pub mk_ptr : ValueType → ValueType
mk_ptr base = ptr base (take 62 (name_of base) ++ codes "*")

abbrev pub byte_kind : TyKind → Bool
byte_kind ty_byte = true
byte_kind ty_bool = true
byte_kind _ = false

unfoldable pub is_byte_like : ValueType → Bool
is_byte_like t = byte_kind (kind_of t)

abbrev pub ptr_kind : TyKind → Bool
ptr_kind ty_ptr = true
ptr_kind ty_str = true
ptr_kind _ = false

unfoldable pub is_ptr_like : ValueType → Bool
is_ptr_like t = ptr_kind (kind_of t)
