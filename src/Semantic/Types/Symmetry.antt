-- ===== src/Semantic/Types/Symmetry.antt =====
-- `types_compatible` of src/semantic.c and the order of its arguments.
use lu_language.Prelude.{
  Bytes, Bool, true, Option, none, some, streq, streq_iff, ◌≡◌, refl, sym, arith,
}
use lu_language.Semantic.Types.{numeric, both_text, pointer_text, enum_int, types_compatible}

both-ways : (a b : Bool) → (a ≡ true → b ≡ true) → (b ≡ true → a ≡ true) → a ≡ b
both-ways a b f g = ground arith

numeric_turn : (a b : Bytes) → numeric a b ≡ true → numeric b a ≡ true
unfolding numeric
numeric_turn a b h = ground arith

both_text_turn : (a b : Bytes) → both_text a b ≡ true → both_text b a ≡ true
unfolding both_text
both_text_turn a b h = ground arith

pointer_text_turn : (a b : Bytes) → pointer_text a b ≡ true → pointer_text b a ≡ true
unfolding pointer_text
pointer_text_turn a b h = ground arith

enum_int_turn : (a b : Bytes) → enum_int a b ≡ true → enum_int b a ≡ true
unfolding enum_int
enum_int_turn a b h = ground arith

streq_turn : (a b : Bytes) → streq a b ≡ true → streq b a ≡ true
streq_turn a b h = (streq_iff b a).1 (sym ((streq_iff a b).0 h))

turn :
    (a b : Bytes)
    → types_compatible (some a) (some b) ≡ true
    → types_compatible (some b) (some a) ≡ true
unfolding types_compatible
turn a b h = ground (
  arith,
  numeric_turn a b,
  both_text_turn a b,
  pointer_text_turn a b,
  enum_int_turn a b,
  streq_turn a b,
)

turn_option : (a b : Option Bytes) → types_compatible a b ≡ types_compatible b a
unfolding types_compatible
turn_option none none = refl
turn_option none (some b) = refl
turn_option (some a) none = refl
turn_option (some a) (some b) = both-ways _ _ (turn a b) (turn b a)

self : (a : Option Bytes) → types_compatible a a ≡ true
unfolding types_compatible
self none = refl
self (some a) = let same = (streq_iff a a).1 refl in ground arith

-- The compatibility of two types does not depend on their order, and a type is compatible with
-- itself.
pub types_compatible_comm :
    (a b : Option Bytes)
    → (types_compatible a b ≡ types_compatible b a) × (types_compatible a a ≡ true)
types_compatible_comm a b = (turn_option a b, self a)
