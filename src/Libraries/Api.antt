-- ===== src/Libraries/Api.antt =====
-- The public functions of the tensor library and the use of its type in a type's text:
-- `tensor_functions` to `contains_tensor_type` of src/libraries.c.
pub mod Occurrence
use lu_language.Prelude.{
  ℕ, Bytes, Bool, true, false, not, ◌&&◌, ◌||◌, List, [], ◌∷◌, Option, none, some, get_or, ◌==◌,
  if◌then◌else◌, isalnum, streq, has_prefix, String, codes,
}
use lu_language.Ast.{Node, Nodes, nil, cons, Payload, NodeKind, node_include, payload, children_of}

pub record LibraryFunction : Type 0 where
  pub name : String
  pub result : String
  pub arity : ℕ
  pub params : List String

abbrev api : String → String → ℕ → List String → LibraryFunction
api name result arity params = record {
  name = name;
  result = result;
  arity = arity;
  params = params;
}

unfoldable pub tensor_functions : List LibraryFunction
tensor_functions =
    api "tensor_zeros" "Tensor" 2 ("int" ∷ "int" ∷ [])
    ∷ api "tensor_ones" "Tensor" 2 ("int" ∷ "int" ∷ [])
    ∷ api "tensor_full" "Tensor" 3 ("int" ∷ "int" ∷ "float" ∷ [])
    ∷ api "tensor_eye" "Tensor" 1 ("int" ∷ [])
    ∷ api "tensor_copy" "Tensor" 1 ("Tensor" ∷ [])
    ∷ api "tensor_add" "Tensor" 2 ("Tensor" ∷ "Tensor" ∷ [])
    ∷ api "tensor_sub" "Tensor" 2 ("Tensor" ∷ "Tensor" ∷ [])
    ∷ api "tensor_mul" "Tensor" 2 ("Tensor" ∷ "Tensor" ∷ [])
    ∷ api "tensor_div" "Tensor" 2 ("Tensor" ∷ "Tensor" ∷ [])
    ∷ api "tensor_scale" "Tensor" 2 ("Tensor" ∷ "float" ∷ [])
    ∷ api "tensor_matmul" "Tensor" 2 ("Tensor" ∷ "Tensor" ∷ [])
    ∷ api "tensor_matvec" "Tensor" 2 ("Tensor" ∷ "Tensor" ∷ [])
    ∷ api "tensor_transpose" "Tensor" 1 ("Tensor" ∷ [])
    ∷ api "tensor_abs" "Tensor" 1 ("Tensor" ∷ [])
    ∷ api "tensor_relu" "Tensor" 1 ("Tensor" ∷ [])
    ∷ api "tensor_sigmoid" "Tensor" 1 ("Tensor" ∷ [])
    ∷ api "tensor_tanh" "Tensor" 1 ("Tensor" ∷ [])
    ∷ api "tensor_clip" "Tensor" 3 ("Tensor" ∷ "float" ∷ "float" ∷ [])
    ∷ api "tensor_get" "float" 3 ("Tensor" ∷ "int" ∷ "int" ∷ [])
    ∷ api "tensor_set" "void" 4 ("Tensor" ∷ "int" ∷ "int" ∷ "float" ∷ [])
    ∷ api "tensor_fill" "void" 2 ("Tensor" ∷ "float" ∷ [])
    ∷ api "tensor_dot" "float" 2 ("Tensor" ∷ "Tensor" ∷ [])
    ∷ api "tensor_sum" "float" 1 ("Tensor" ∷ [])
    ∷ api "tensor_max" "float" 1 ("Tensor" ∷ [])
    ∷ api "tensor_min" "float" 1 ("Tensor" ∷ [])
    ∷ api "tensor_argmax" "int" 1 ("Tensor" ∷ [])
    ∷ api "tensor_mean" "float" 1 ("Tensor" ∷ [])
    ∷ api "tensor_rows" "int" 1 ("Tensor" ∷ [])
    ∷ api "tensor_cols" "int" 1 ("Tensor" ∷ [])
    ∷ api "tensor_print" "void" 1 ("Tensor" ∷ [])
    ∷ api "tensor_free" "void" 1 ("Tensor" ∷ [])
    ∷ []

unfoldable pub find_function : List LibraryFunction → Bytes → Option LibraryFunction
find_function [] name = none
find_function (f ∷ more) name =
    if streq name (codes f.name) then some f else find_function more name

-- A null name is no function.
unfoldable pub tensor_function : Option Bytes → Option LibraryFunction
tensor_function none = none
tensor_function (some name) = find_function tensor_functions name

unfoldable pub text_is : String → Option Bytes → Bool
text_is s none = false
text_is s (some v) = streq v (codes s)

abbrev pub is_include : NodeKind → Bool
is_include node_include = true
is_include _ = false

unfoldable pub is_tensor_import : Payload → Bool
is_tensor_import p = is_include p.kind && text_is "<tensor.h>" p.sval

unfoldable pub has_tensor_import : Nodes → Bool
has_tensor_import nil = false
has_tensor_import (cons n ns) = is_tensor_import (payload n) || has_tensor_import ns

-- A byte that belongs to a name.
unfoldable pub is_name_byte : ℕ → Bool
is_name_byte c = isalnum c || c == b'_'

-- The type's name begins here and ends here.
unfoldable pub tensor_here : Bytes → Bool
tensor_here p = has_prefix (codes "Tensor") p && not (is_name_byte (get_or p 6 0))

-- The loop; the flag says that no byte of a name stands in front.
unfoldable pub contains_on : Bool → Bytes → Bool
contains_on free [] = false
contains_on free (c ∷ cs) = (free && tensor_here (c ∷ cs)) || contains_on (not (is_name_byte c)) cs

unfoldable pub contains_tensor_type : Option Bytes → Bool
contains_tensor_type none = false
contains_tensor_type (some text) = contains_on true text
