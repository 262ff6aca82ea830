-- ===== src/Includes/Expand/Fuel.antt =====
-- The fuel of the loop of `expand`, src/includes.c.
use lu_language.Prelude.{ℕ, ◌+◌, ◌≤◌, Bytes, [], ◌∷◌, length, ◌≡◌, refl, arith}
use lu_language.Includes.Directive.{behind_line}
use lu_language.Includes.Paths.{Os}
use lu_language.Includes.Expand.{Incl, Result, ok, err, ◌>>=◌, Expander, expand_line, expand_on}
use lu_language.Includes.Expand.Plain.{length-behind_cons}

bind-ext :
    (r : Result Incl) (f g : Incl → Result Incl) → ((s : Incl) → f s ≡ g s) → (r >>= f) ≡ (r >>= g)
bind-ext (ok s) f g h = h s
bind-ext (err e) f g h = refl

-- Any two amounts of fuel that are as long as the text give the loop the same result; `expand`
-- gives it the text itself.
pub expand_on-enough :
    (os : Os) (deeper : Expander) (from_file fuel fuel' : Bytes) (line_no : ℕ) (p : Bytes)
    (st : Incl)
    → length p ≤ length fuel
    → length p ≤ length fuel'
    → expand_on os deeper from_file fuel line_no p st
      ≡ expand_on os deeper from_file fuel' line_no p st
unfolding expand_on
expand_on-enough os deeper from_file [] [] line_no p st h h' = refl
expand_on-enough os deeper from_file [] (x ∷ fuel') line_no [] st h h' = refl
expand_on-enough os deeper from_file [] (x ∷ fuel') line_no (c ∷ cs) st h h' = absurd (omega arith)
expand_on-enough os deeper from_file (x ∷ fuel) [] line_no [] st h h' = refl
expand_on-enough os deeper from_file (x ∷ fuel) [] line_no (c ∷ cs) st h h' = absurd (omega arith)
expand_on-enough os deeper from_file (x ∷ fuel) (y ∷ fuel') line_no [] st h h' = refl
expand_on-enough os deeper from_file (x ∷ fuel) (y ∷ fuel') line_no (c ∷ cs) st h h' =
    let shorter = length-behind_cons c cs in
    bind-ext (expand_line os deeper from_file (line_no + 1) (c ∷ cs) st) _ _ (λ st'.
      expand_on-enough os deeper from_file fuel fuel' (line_no + 1) (behind_line (c ∷ cs)) st'
        (omega (arith, shorter)) (omega (arith, shorter)))
