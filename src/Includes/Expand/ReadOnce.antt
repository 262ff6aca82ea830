-- ===== src/Includes/Expand/ReadOnce.antt =====
-- How often `expand` of src/includes.c reads a file.
use lu_language.Prelude.{
  ℕ, Bytes, true, List, none, some, ◌≡◌, refl, sym, ◌∙◌, inl, inr, Bool-cases, c_str,
}
use lu_language.Includes.Expand.{
  Incl, Result, ok, err, splice, remember, include_file, expand, cannot_read,
}
use lu_language.Includes.Expand.Once.{
  Distinct, Grows, Keeps, Keeps-ok, splice-Keeps, Distinct-concat, include_file-Keeps, expand-Keeps,
}
use lu_language.Includes.Paths.{Os, already_seen}
use lu_language.Includes.Expand.Agree.{
  without, still_seen, remembered, splice-Agrees, expand-Agrees,
}

abbrev Sees : Bytes → Result Incl → Type 0
Sees path (ok st) = already_seen st.seen path ≡ true
Sees path (err _) = Unit

Keeps-Sees :
    (path : Bytes) (xs : List Bytes) (r : Result Incl)
    → already_seen xs path ≡ true
    → Keeps xs r
    → Sees path r
Keeps-Sees path xs (ok st) h k = still_seen path k h
Keeps-Sees path xs (err _) h k = tt

include_file-Sees :
    (os : Os) (levels : ℕ) (from_file : Bytes) (line_no : ℕ) (name path : Bytes) (st : Incl)
    → Distinct st.seen
    → Sees path (include_file os (λ f s t. expand os levels f s t) from_file line_no name path st)
unfolding include_file
include_file-Sees os levels from_file line_no name path st d =
    elim (Bool-cases (already_seen st.seen path)) [
      | inl e ↦ rw e e
      | inr e ↦
          rw e
            (elim (os.read_file path)
              as (λ o. Sees path (elim o [
                | none ↦ err (cannot_read from_file line_no path)
                | some isrc ↦
                    splice (λ f s t. expand os levels f s t) from_file line_no name path
                      (c_str isrc) (remember st path)
              ])) [
                | none ↦ tt
                | some isrc ↦ Keeps-Sees path (remember st path).seen _ (remembered st path) (
                    splice-Keeps (λ f s t. expand os levels f s t) (expand-Keeps os levels)
                      from_file line_no name path (c_str isrc) (remember st path)
                      (Distinct-concat st.seen path d e))
              ])
    ]

Sees-ok : (path : Bytes) (r : Result Incl) (st : Incl) → Sees path r → r ≡ ok st → Sees path (ok st)
Sees-ok path r st h e = rw e at h

include_file-deeper :
    (os : Os) (levels : ℕ) (from_file : Bytes) (line_no : ℕ) (name path : Bytes) (st : Incl)
    → Distinct st.seen
    → include_file os (λ f s t. expand os levels f s t) from_file line_no name path st
      ≡ include_file os
          (λ f s t. expand (without path os) levels f s t)
          from_file
          line_no
          name
          path
          st
unfolding include_file
include_file-deeper os levels from_file line_no name path st d =
    elim (Bool-cases (already_seen st.seen path)) [
      | inl e ↦ rw e refl
      | inr e ↦
          rw e
            (elim (os.read_file path)
              as (λ o.
                (elim o [
                  | none ↦ err (cannot_read from_file line_no path)
                  | some isrc ↦
                      splice (λ f s t. expand os levels f s t) from_file line_no name path
                        (c_str isrc) (remember st path)
                ])
                ≡ (elim o [
                  | none ↦ err (cannot_read from_file line_no path)
                  | some isrc ↦
                      splice (λ f s t. expand (without path os) levels f s t) from_file line_no name
                        path (c_str isrc) (remember st path)
                ])) [
                  | none ↦ refl
                  | some isrc ↦
                      splice-Agrees path os (λ f s t. expand os levels f s t)
                        (λ f s t. expand (without path os) levels f s t)
                        (expand-Agrees path os levels) from_file line_no name path (c_str isrc)
                        (remember st path) (Distinct-concat st.seen path d e) (remembered st path)
                ])
    ]

-- A file that is included successfully, from a list of distinct paths, is not read again: neither
-- while its own text is expanded, however deep, nor in any later expansion would it make a
-- difference if the file could no longer be read. The list has grown and again repeats no path.
pub include_file-once :
    (os : Os) (levels later : ℕ) (from_file : Bytes) (line_no : ℕ) (name path : Bytes)
    (st st' : Incl) (next_file text : Bytes)
    → Distinct st.seen
    → include_file os (λ f s t. expand os levels f s t) from_file line_no name path st ≡ ok st'
    → (include_file os
          (λ f s t. expand (without path os) levels f s t)
          from_file
          line_no
          name
          path
          st
        ≡ ok st')
      × (expand os later next_file text st' ≡ expand (without path os) later next_file text st')
      × Grows st.seen st'.seen
include_file-once os levels later from_file line_no name path st st' next_file text d e =
    let grown =
      Keeps-ok st.seen _ st'
        (include_file-Keeps (λ f s t. expand os levels f s t) (expand-Keeps os levels) from_file
          line_no name os path st d)
        e in
    (
      sym (include_file-deeper os levels from_file line_no name path st d) ∙ e,
      expand-Agrees path os later next_file text st' grown.distinct
          (Sees-ok path _ st' (include_file-Sees os levels from_file line_no name path st d) e),
      grown,
    )
