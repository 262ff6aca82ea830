-- ===== src/Libraries/Api/Occurrence.antt =====
-- `contains_tensor_type` of src/libraries.c against a description of the occurrences.
use lu_language.Prelude.{
  ℕ, Bytes, Bool, true, false, not, [], ◌∷◌, ◌++◌, some, drop, get_or, ◌≡◌, ◌↔◌, refl, sym, ap, ◌∙◌,
  inl, inr, Bool-cases, has_prefix, has_prefix_split, has_prefix-append, codes, arith,
}
use lu_language.Libraries.Api.{is_name_byte, tensor_here, contains_on, contains_tensor_type}

-- Whether no byte of a name stands at the end of a text; `free` is the answer for the empty one.
abbrev pub free_behind : Bool → Bytes → Bool
free_behind free [] = free
free_behind free (c ∷ cs) = free_behind (not (is_name_byte c)) cs

-- `Tensor` stands in the text, and neither in front of it nor behind it a byte of a name.
pub record Occurs (free : Bool) (text : Bytes) : Type 0 where
  pub before : Bytes
  pub behind : Bytes
  pub spelled : text ≡ before ++ (codes "Tensor" ++ behind)
  pub starts : free_behind free before ≡ true
  pub ends : is_name_byte (get_or behind 0 0) ≡ false

abbrev word : Bytes
word = codes "Tensor"

here-Occurs : (text : Bytes) → tensor_here text ≡ true → Occurs true text
unfolding tensor_here
here-Occurs text h =
    let both : (has_prefix word text ≡ true) × (is_name_byte (get_or text 6 0) ≡ false) =
      ground arith in
    let split = has_prefix_split word text both.0 in
    record {
      before = [];
      behind = drop 6 text;
      spelled = split;
      starts = refl;
      ends = ap (λ t. is_name_byte (get_or t 6 0)) (sym split) ∙ both.1;
    }

later-Occurs :
    (free : Bool) (c : ℕ) (cs : Bytes) → Occurs (not (is_name_byte c)) cs → Occurs free (c ∷ cs)
later-Occurs free c cs o = record {
  before = c ∷ o.before;
  behind = o.behind;
  spelled = ap (◌∷◌ c) o.spelled;
  starts = o.starts;
  ends = o.ends;
}

contains_on_sound : (free : Bool) (text : Bytes) → contains_on free text ≡ true → Occurs free text
unfolding contains_on
contains_on_sound free [] h = cc
contains_on_sound false (c ∷ cs) h =
    later-Occurs false c cs (contains_on_sound (not (is_name_byte c)) cs h)
contains_on_sound true (c ∷ cs) h = elim (Bool-cases (tensor_here (c ∷ cs))) [
  | inl at ↦ here-Occurs (c ∷ cs) at
  | inr off ↦ later-Occurs true c cs (contains_on_sound (not (is_name_byte c)) cs (rw off at h))
]

tensor_here-word :
    (behind : Bytes)
    → is_name_byte (get_or behind 0 0) ≡ false
    → tensor_here (word ++ behind) ≡ true
unfolding tensor_here
tensor_here-word behind e = rw (has_prefix-append word behind, e)

contains_on_complete :
    (free : Bool) (before behind : Bytes)
    → free_behind free before ≡ true
    → is_name_byte (get_or behind 0 0) ≡ false
    → contains_on free (before ++ (word ++ behind)) ≡ true
unfolding contains_on
contains_on_complete free [] behind s e = ground (arith, tensor_here-word behind e)
contains_on_complete free (c ∷ cs) behind s e =
    ground (arith, contains_on_complete (not (is_name_byte c)) cs behind s e)

-- `contains_tensor_type` answers true exactly when the text holds `Tensor` as a whole word.
pub contains_tensor_type_iff :
    (text : Bytes) → (contains_tensor_type (some text) ≡ true) ↔ Occurs true text
unfolding contains_tensor_type
contains_tensor_type_iff text = (
  contains_on_sound true text,
  λ o. rw o.spelled (contains_on_complete true o.before o.behind o.starts o.ends),
)
