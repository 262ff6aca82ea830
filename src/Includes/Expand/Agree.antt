-- ===== src/Includes/Expand/Agree.antt =====
-- The expansion of src/includes.c beside the expansion in which one of the files can no longer be
-- read.
use lu_language.Prelude.{
  ℕ, zero, suc, ◌+◌, Bytes, true, false, List, [], ◌∷◌, ◌++◌, none, some, ◌≡◌, refl, ap, ◌∙◌, inl,
  inr, Bool-cases, if◌then◌else◌, streq, streq_iff, has_prefix, c_str, codes, arith,
}
use lu_language.Includes.Directive.{match_incl, first_line, behind_line, skip_header}
use lu_language.Includes.Expand.{
  Incl, Result, ok, err, ◌>>=◌, Expander, put, splice, remember, include_file, directive,
  expand_line, expand_on, expand, begin_line, header_line, end_line, is_strict, cannot_read,
  not_found, copy_line,
}
use lu_language.Includes.Expand.Once.{
  Distinct, Grows, Keeps, KeepsAll, Distinct-concat, already_seen-concat, expand_line-Keeps,
  expand-Keeps,
}
use lu_language.Includes.Paths.{
  Os, search_dirs, exe_dir, find_in, find_among, resolve, canonical, already_seen, has_suffix,
}

-- The same files but for one, which can no longer be read.
abbrev pub without : Bytes → Os → Os
without path os = record os { read_file = λ p. if streq p path then none else os.read_file p }

pub already_seen-append :
    (xs ys : List Bytes) (p : Bytes) → already_seen xs p ≡ true → already_seen (xs ++ ys) p ≡ true
unfolding already_seen
already_seen-append [] ys p h = cc
already_seen-append (x ∷ xs) ys p h = ground (arith, already_seen-append xs ys p)

pub still_seen :
    {xs ys : List Bytes} (p : Bytes)
    → Grows xs ys
    → already_seen xs p ≡ true
    → already_seen ys p ≡ true
still_seen {xs} p g h = rw (g.extends) (already_seen-append xs g.added p h)

pub apart :
    (xs : List Bytes) (p q : Bytes)
    → already_seen xs p ≡ false
    → already_seen xs q ≡ true
    → streq p q ≡ false
apart xs p q off on = elim (Bool-cases (streq p q)) [
  | inr e ↦ e
  | inl e ↦
      let same : already_seen xs p ≡ already_seen xs q =
        ap (already_seen xs) ((streq_iff p q).0 e) in
      cc
]

pub remembered : (st : Incl) (p : Bytes) → already_seen (remember st p).seen p ≡ true
remembered st p = already_seen-concat st.seen p p ∙ ground (arith, streq_iff p p)

pub find_among-without :
    (path : Bytes) (os : Os) (name : Bytes) (dirs : List Bytes)
    → find_among (without path os) name dirs ≡ find_among os name dirs
unfolding find_among find_in
find_among-without path os name [] = refl
find_among-without path os name (dir ∷ dirs) =
    ap (λ r. elim (find_in os name dir) [ some p ↦ some p | none ↦ r ])
      (find_among-without path os name dirs)

pub resolve-without :
    (path : Bytes) (os : Os) (from_file name : Bytes)
    → resolve (without path os) from_file name ≡ resolve os from_file name
unfolding resolve search_dirs exe_dir
resolve-without path os from_file name = find_among-without path os name (search_dirs os from_file)

-- Two expanders agree wherever the path is in the list.
abbrev pub Agrees : Bytes → Expander → Expander → Type 0
Agrees path deeper other =
    (f s : Bytes) (t : Incl)
    → Distinct t.seen
    → already_seen t.seen path ≡ true
    → deeper f s t ≡ other f s t

pub bind-same :
    (seen : List Bytes) (r r' : Result Incl) (f g : Incl → Result Incl)
    → r ≡ r'
    → Keeps seen r
    → ((st : Incl) → Grows seen st.seen → f st ≡ g st)
    → (r >>= f) ≡ (r' >>= g)
bind-same seen (ok st) r' f g e k h = h st k ∙ ap (λ q. q >>= g) e
bind-same seen (err x) r' f g e k h = ap (λ q. q >>= g) e

module _ (path : Bytes) (os : Os) (deeper other : Expander) (same : Agrees path deeper other)
    (from_file : Bytes) (line_no : ℕ) (name : Bytes) where
  pub splice-Agrees :
      (full isrc : Bytes) (st : Incl)
      → Distinct st.seen
      → already_seen st.seen path ≡ true
      → splice deeper from_file line_no name full isrc st
        ≡ splice other from_file line_no name full isrc st
  unfolding splice
  splice-Agrees full isrc st d on =
      ap
        (λ r.
          if has_prefix (codes "Lu/Strict") (skip_header isrc)
          then err (is_strict from_file line_no name)
          else (r >>= λ st'. ok (put st' (end_line name))))
        (same full (skip_header isrc) (put st (begin_line name full)) d on)

  -- The path is in the list, so the file is not read.
  pub include_file-Agrees :
      (full : Bytes) (st : Incl)
      → Distinct st.seen
      → already_seen st.seen path ≡ true
      → include_file os deeper from_file line_no name full st
        ≡ include_file (without path os) other from_file line_no name full st
  unfolding include_file
  include_file-Agrees full st d on = elim (Bool-cases (already_seen st.seen full)) [
    | inl e ↦ rw e refl
    | inr e ↦
        rw (e, apart st.seen full path e on)
          (elim (os.read_file full)
            as (λ o.
              (elim o [
                | none ↦ err (cannot_read from_file line_no full)
                | some isrc ↦
                    splice deeper from_file line_no name full (c_str isrc) (remember st full)
              ])
              ≡ (elim o [
                | none ↦ err (cannot_read from_file line_no full)
                | some isrc ↦
                    splice other from_file line_no name full (c_str isrc) (remember st full)
              ])) [
                | none ↦ refl
                | some isrc ↦
                    splice-Agrees full (c_str isrc) (remember st full)
                      (Distinct-concat st.seen full d e)
                      (already_seen-append st.seen (full ∷ []) path on)
              ])
  ]

  pub directive-Agrees :
      (st : Incl)
      → Distinct st.seen
      → already_seen st.seen path ≡ true
      → directive os deeper from_file line_no name st
        ≡ directive (without path os) other from_file line_no name st
  unfolding directive canonical
  directive-Agrees st d on = rw (resolve-without path os from_file name) (
      ap (λ r. if has_suffix (codes ".h") name then ok (put st (header_line name)) else r)
        (elim (resolve os from_file name)
          as (λ o.
            (elim o [
              | none ↦ err (not_found from_file line_no name)
              | some full ↦ include_file os deeper from_file line_no name (canonical os full) st
            ])
            ≡ (elim o [
              | none ↦ err (not_found from_file line_no name)
              | some full ↦
                  include_file (without path os) other from_file line_no name
                    (canonical (without path os) full) st
            ])) [ none ↦ refl | some full ↦ include_file-Agrees (canonical os full) st d on ]))

module _ (path : Bytes) (os : Os) (deeper other : Expander) (same : Agrees path deeper other)
    (from_file : Bytes) where
  pub expand_line-Agrees :
      (line_no : ℕ) (p : Bytes) (st : Incl)
      → Distinct st.seen
      → already_seen st.seen path ≡ true
      → expand_line os deeper from_file line_no p st
        ≡ expand_line (without path os) other from_file line_no p st
  unfolding expand_line
  expand_line-Agrees line_no p st d on =
      elim (match_incl 512 (first_line p))
        as (λ o.
          (elim o [
            | some name ↦ directive os deeper from_file line_no name st
            | none ↦ ok (copy_line p st)
          ])
          ≡ (elim o [
            | some name ↦ directive (without path os) other from_file line_no name st
            | none ↦ ok (copy_line p st)
          ])) [
            | none ↦ refl
            | some name ↦ directive-Agrees path os deeper other same from_file line_no name st d on
          ]

  pub expand_on-Agrees :
      KeepsAll deeper
      → (fuel : Bytes) (line_no : ℕ) (p : Bytes) (st : Incl) → Distinct st.seen
      → already_seen st.seen path ≡ true
      → expand_on os deeper from_file fuel line_no p st
        ≡ expand_on (without path os) other from_file fuel line_no p st
  unfolding expand_on
  expand_on-Agrees all [] line_no p st d on = refl
  expand_on-Agrees all (_ ∷ fuel) line_no [] st d on = refl
  expand_on-Agrees all (_ ∷ fuel) line_no (c ∷ cs) st d on =
      bind-same st.seen _ _ _ _ (expand_line-Agrees (line_no + 1) (c ∷ cs) st d on)
        (expand_line-Keeps os deeper all from_file (line_no + 1) (c ∷ cs) st d)
        (λ st' g.
          expand_on-Agrees all fuel (line_no + 1) (behind_line (c ∷ cs)) st' g.distinct
            (still_seen path g on))

pub expand-Agrees :
    (path : Bytes) (os : Os) (levels : ℕ)
    → Agrees path (λ f s t. expand os levels f s t) (λ f s t. expand (without path os) levels f s t)
unfolding expand
expand-Agrees path os zero f s t d on = refl
expand-Agrees path os (suc levels) f s t d on =
    expand_on-Agrees path os (λ f s t. expand os levels f s t)
      (λ f s t. expand (without path os) levels f s t) (expand-Agrees path os levels) f
      (expand-Keeps os levels) s 0 s t d on
