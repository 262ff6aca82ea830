-- ===== src/Includes/Expand/Once.antt =====
-- The list `seen` of src/includes.c through an expansion.
use lu_language.Prelude.{
  ℕ, zero, suc, ◌+◌, Bytes, Bool, true, false, ◌||◌, List, [], ◌∷◌, ◌++◌, append_assoc, append-nil,
  none, some, ◌≡◌, refl, sym, ap, ◌∙◌, if◌then◌else◌, streq, streq_iff, has_prefix, c_str, codes,
  arith,
}
use lu_language.Includes.Directive.{match_incl, first_line, behind_line, skip_header}
use lu_language.Includes.Expand.{
  cannot_read, not_found, Incl, Result, ok, err, ◌>>=◌, Expander, put, splice, remember,
  include_file, directive, copy_line, expand_line, expand_on, expand, begin_line,
}
use lu_language.Includes.Paths.{Os, already_seen, resolve, canonical, has_suffix}

-- No path stands behind itself.
abbrev pub Distinct : List Bytes → Type 0
Distinct [] = Unit
Distinct (x ∷ xs) = (already_seen xs x ≡ false) × Distinct xs

-- What an expansion from `seen` leaves: a longer list, again with no path twice.
pub record Grows (seen after : List Bytes) : Type 0 where
  pub added : List Bytes
  pub extends : after ≡ seen ++ added
  pub distinct : Distinct after

abbrev pub Keeps : List Bytes → Result Incl → Type 0
Keeps seen (ok st) = Grows seen st.seen
Keeps seen (err _) = Unit

Keeps->>= :
    (seen : List Bytes) (r : Result Incl) (f : Incl → Result Incl)
    → Keeps seen r
    → ((st : Incl) → Grows seen st.seen → Keeps seen (f st))
    → Keeps seen (r >>= f)
Keeps->>= seen (ok st) f h k = k st h
Keeps->>= seen (err e) f h k = tt

pub already_seen-concat :
    (xs : List Bytes) (x p : Bytes)
    → already_seen (xs ++ (x ∷ [])) p ≡ (already_seen xs p || streq x p)
unfolding already_seen
already_seen-concat [] x p = ground arith
already_seen-concat (y ∷ ys) x p = ground (arith, already_seen-concat ys x p)

streq_sym_false : (a b : Bytes) → streq a b ≡ false → streq b a ≡ false
streq_sym_false a b h = ground (arith, streq_iff a b, streq_iff b a)

pub Distinct-concat :
    (xs : List Bytes) (x : Bytes)
    → Distinct xs
    → already_seen xs x ≡ false
    → Distinct (xs ++ (x ∷ []))
unfolding already_seen
Distinct-concat [] x d h = (refl, tt)
Distinct-concat (y ∷ ys) x d h =
    let apart : (streq y x ≡ false) × (already_seen ys x ≡ false) = ground arith in
    (
      already_seen-concat ys x y ∙ ground (arith, streq_sym_false y x apart.0, d.0),
      Distinct-concat ys x d.1 apart.1,
    )

Grows-refl : (xs : List Bytes) → Distinct xs → Grows xs xs
Grows-refl xs d = record { added = []; extends = sym (append-nil xs); distinct = d }

Grows-trans : {xs ys zs : List Bytes} → Grows xs ys → Grows ys zs → Grows xs zs
Grows-trans {xs} g h = record {
  added = g.added ++ h.added;
  extends = h.extends ∙ ap (λ l. l ++ h.added) g.extends ∙ append_assoc xs g.added h.added;
  distinct = h.distinct;
}

Keeps-from : {xs ys : List Bytes} (r : Result Incl) → Grows xs ys → Keeps ys r → Keeps xs r
Keeps-from (ok st) g h = Grows-trans g h
Keeps-from (err e) g h = tt

Keeps-if :
    (xs : List Bytes) (t : Bool) (r s : Result Incl)
    → Keeps xs r
    → (t ≡ false → Keeps xs s)
    → Keeps xs (if t then r else s)
Keeps-if xs true r s p q = p
Keeps-if xs false r s p q = q refl

abbrev pub KeepsAll : Expander → Type 0
KeepsAll deeper = (f s : Bytes) (t : Incl) → Distinct t.seen → Keeps t.seen (deeper f s t)

module _ (deeper : Expander) (all : KeepsAll deeper) (from_file : Bytes) (line_no : ℕ)
    (name : Bytes) where
  pub splice-Keeps :
      (full isrc : Bytes) (st : Incl)
      → Distinct st.seen
      → Keeps st.seen (splice deeper from_file line_no name full isrc st)
  unfolding splice
  splice-Keeps full isrc st d =
      Keeps-if st.seen (has_prefix (codes "Lu/Strict") (skip_header isrc)) _ _ tt (λ _.
        Keeps->>= st.seen (deeper full (skip_header isrc) (put st (begin_line name full))) _
          (all full (skip_header isrc) (put st (begin_line name full)) d) (λ st' g. g))

  read_file-Keeps :
      (full : Bytes) (st : Incl)
      → Distinct st.seen
      → already_seen st.seen full ≡ false
      → (isrc : Bytes)
      → Keeps st.seen (splice deeper from_file line_no name full isrc (remember st full))
  read_file-Keeps full st d h isrc =
      let d' = Distinct-concat st.seen full d h in
      Keeps-from (splice deeper from_file line_no name full isrc (remember st full))
        (record { added = full ∷ []; extends = refl; distinct = d' })
        (splice-Keeps full isrc (remember st full) d')

  pub include_file-Keeps :
      (os : Os) (full : Bytes) (st : Incl)
      → Distinct st.seen
      → Keeps st.seen (include_file os deeper from_file line_no name full st)
  unfolding include_file
  include_file-Keeps os full st d =
      Keeps-if st.seen (already_seen st.seen full) _ _ (Grows-refl st.seen d) (λ h.
        elim (os.read_file full)
          as (λ o. Keeps st.seen (elim o [
            | none ↦ err (cannot_read from_file line_no full)
            | some isrc ↦ splice deeper from_file line_no name full (c_str isrc) (remember st full)
          ])) [ none ↦ tt | some isrc ↦ read_file-Keeps full st d h (c_str isrc) ])

  directive-Keeps :
      (os : Os) (st : Incl)
      → Distinct st.seen
      → Keeps st.seen (directive os deeper from_file line_no name st)
  unfolding directive
  directive-Keeps os st d =
      Keeps-if st.seen (has_suffix (codes ".h") name) _ _ (Grows-refl st.seen d) (λ _.
        elim (resolve os from_file name)
          as (λ o. Keeps st.seen (elim o [
            | none ↦ err (not_found from_file line_no name)
            | some full ↦ include_file os deeper from_file line_no name (canonical os full) st
          ])) [ none ↦ tt | some full ↦ include_file-Keeps os (canonical os full) st d ])

pub expand_line-Keeps :
    (os : Os) (deeper : Expander)
    → KeepsAll deeper
    → (from_file : Bytes) (line_no : ℕ) (p : Bytes) (st : Incl) → Distinct st.seen
    → Keeps st.seen (expand_line os deeper from_file line_no p st)
unfolding expand_line
expand_line-Keeps os deeper all from_file line_no p st d =
    elim (match_incl 512 (first_line p))
      as (λ o. Keeps st.seen (elim o [
        | some name ↦ directive os deeper from_file line_no name st
        | none ↦ ok (copy_line p st)
      ])) [
        | some name ↦ directive-Keeps deeper all from_file line_no name os st d
        | none ↦ Grows-refl st.seen d
      ]

expand_on-Keeps :
    (os : Os) (deeper : Expander)
    → KeepsAll deeper
    → (from_file fuel : Bytes) (line_no : ℕ) (p : Bytes) (st : Incl) → Distinct st.seen
    → Keeps st.seen (expand_on os deeper from_file fuel line_no p st)
unfolding expand_on
expand_on-Keeps os deeper all from_file [] line_no p st d = Grows-refl st.seen d
expand_on-Keeps os deeper all from_file (_ ∷ fuel) line_no [] st d = Grows-refl st.seen d
expand_on-Keeps os deeper all from_file (_ ∷ fuel) line_no (c ∷ cs) st d =
    Keeps->>= st.seen (expand_line os deeper from_file (line_no + 1) (c ∷ cs) st) _
      (expand_line-Keeps os deeper all from_file (line_no + 1) (c ∷ cs) st d)
      (λ st' g.
        Keeps-from (expand_on os deeper from_file fuel (line_no + 1) (behind_line (c ∷ cs)) st') g (
          expand_on-Keeps os deeper all from_file fuel (line_no + 1) (behind_line (c ∷ cs)) st'
            g.distinct))

pub expand-Keeps : (os : Os) (levels : ℕ) → KeepsAll (λ f s t. expand os levels f s t)
unfolding expand
expand-Keeps os zero f s t d = tt
expand-Keeps os (suc levels) f s t d =
    expand_on-Keeps os (λ f s t. expand os levels f s t) (expand-Keeps os levels) f s 0 s t d

pub Keeps-ok :
    (seen : List Bytes) (r : Result Incl) (st : Incl)
    → Keeps seen r
    → r ≡ ok st
    → Grows seen st.seen
Keeps-ok seen r st h e = rw e at h
