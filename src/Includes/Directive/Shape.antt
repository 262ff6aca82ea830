-- ===== src/Includes/Directive/Shape.antt =====
-- Which lines `match_incl` of src/includes.c takes for directives.
use lu_language.Prelude.{
  ℕ, ◌+◌, ◌<◌, Bytes, true, false, [], ◌∷◌, ◌++◌, append_assoc, append-nil, All, none, some, length,
  length-append, drop, drop_while, leb, ◌≡◌, ◌≢◌, ◌↔◌, refl, sym, ap, ◌∙◌, inl, inr, Bool-cases,
  Option-cases, ◌==◌, has_prefix, has_prefix_split, has_prefix-append, codes, arith,
}
use lu_language.Includes.Directive.{
  is_blank, name_on, open_bracket, separates, behind_incl, match_incl,
}

abbrev pub Blank : Bytes → Type 0
Blank = All (λ c. is_blank c ≡ true)

abbrev pub NoBracket : Bytes → Type 0
NoBracket = All (λ c. c ≢ b'>')

-- The line is `incl <name>`, with blanks in front and between, and anything behind. `size` bounds
-- the name and its NUL.
pub record IsDirective (size : ℕ) (line name : Bytes) : Type 0 where
  pub indent : Bytes
  pub gap : Bytes
  pub rest : Bytes
  pub spelled : line ≡ indent ++ (codes "incl" ++ (gap ++ (b'<' ∷ (name ++ (b'>' ∷ rest)))))
  pub indent_blank : Blank indent
  pub gap_blank : Blank gap
  pub named : NoBracket name
  pub nonempty : 0 < length name
  pub fits : length name < size

name_on-named :
    (size : ℕ) (name more rest : Bytes)
    → NoBracket more
    → length name + length more < size
    → 0 < length name + length more
    → name_on size name (more ++ (b'>' ∷ rest)) ≡ some (name ++ more)
unfolding name_on
name_on-named size name [] rest b h g = rw append-nil (ground arith)
name_on-named size name (c ∷ cs) rest b h g =
    let off : (c == b'>') ≡ false = ground (arith, b.0) in
    let room : leb size (length name + 1) ≡ false = ground arith in
    let one = length-append name (c ∷ []) in
    rw (off, room)
      (name_on-named size (name ++ (c ∷ [])) cs rest b.1 (omega (arith, one)) (omega (arith, one))
        ∙ ap some (append_assoc name (c ∷ []) cs))

drop_while-Blank :
    (xs : Bytes) (c : ℕ) (rest : Bytes)
    → Blank xs
    → is_blank c ≡ false
    → drop_while is_blank (xs ++ (c ∷ rest)) ≡ c ∷ rest
drop_while-Blank [] c rest b h = rw h
drop_while-Blank (x ∷ xs) c rest b h = rw (b.0) (drop_while-Blank xs c rest b.1 h)

separates_gap : (gap rest : Bytes) → Blank gap → separates (gap ++ (b'<' ∷ rest)) ≡ true
separates_gap [] rest b = refl
separates_gap (c ∷ cs) rest b = rw (b.0)

behind_incl_complete :
    (size : ℕ) (name gap rest : Bytes)
    → Blank gap
    → NoBracket name
    → 0 < length name
    → length name < size
    → behind_incl size (gap ++ (b'<' ∷ (name ++ (b'>' ∷ rest)))) ≡ some name
unfolding behind_incl
behind_incl_complete size name gap rest b n g f =
    rw
      (
        separates_gap gap (name ++ (b'>' ∷ rest)) b,
        drop_while-Blank gap b'<' (name ++ (b'>' ∷ rest)) b refl,
      )
      (unfold open_bracket in name_on-named size [] name rest n (omega arith) (omega arith))

match_incl_complete :
    (size : ℕ) (line name : Bytes) → IsDirective size line name → match_incl size line ≡ some name
unfolding match_incl
match_incl_complete size line name d =
    let tail = d.gap ++ (b'<' ∷ (name ++ (b'>' ∷ d.rest))) in
    let start : drop_while is_blank line ≡ codes "incl" ++ tail =
      ap (drop_while is_blank) d.spelled
      ∙ drop_while-Blank d.indent b'i' (codes "ncl" ++ tail) d.indent_blank refl in
    rw (start, has_prefix-append (codes "incl") tail)
      (behind_incl_complete size name d.gap d.rest d.gap_blank d.named d.nonempty d.fits)

none-ne-some : (v : Bytes) → none ≡ some v → ⊥
none-ne-some v e = cc

-- A text in front of `>` that `name_on` returns behind the bytes that it had.
record Named (size : ℕ) (name xs v : Bytes) : Type 0 where
  more : Bytes
  rest : Bytes
  spelled : xs ≡ more ++ (b'>' ∷ rest)
  free : NoBracket more
  whole : v ≡ name ++ more
  nonempty : 0 < length v
  fits : length v < size

name_on-Named :
    (size : ℕ) (name xs v : Bytes)
    → length name < size
    → name_on size name xs ≡ some v
    → Named size name xs v
unfolding name_on
name_on-Named size name [] v h e = cc
name_on-Named size name (c ∷ cs) v h e = elim (Bool-cases (c == b'>')) [
  | inl at ↦
      let same : name ≡ v = ground arith in
      record {
        more = [];
        rest = cs;
        spelled = ground arith;
        free = tt;
        whole = sym same ∙ sym (append-nil name);
        nonempty = ground arith;
        fits = rw (← same) h;
      }
  | inr off ↦
      let room : length (name ++ (c ∷ [])) < size = ground (arith, length-append name (c ∷ [])) in
      let onward : name_on size (name ++ (c ∷ [])) cs ≡ some v = ground arith in
      let n = name_on-Named size (name ++ (c ∷ [])) cs v room onward in
      record {
        more = c ∷ n.more;
        rest = n.rest;
        spelled = ap (◌∷◌ c) n.spelled;
        free = (ground arith, n.free);
        whole = n.whole ∙ append_assoc name (c ∷ []) n.more;
        nonempty = n.nonempty;
        fits = n.fits;
      }
]

split_blanks : (xs : Bytes) → (pre : Bytes) × Blank pre × (xs ≡ pre ++ drop_while is_blank xs)
split_blanks [] = ([], tt, refl)
split_blanks (x ∷ xs) = elim (Bool-cases (is_blank x)) [
  | inl more ↦ let (pre, b, e) = split_blanks xs in (x ∷ pre, (more, b), rw more (ap (◌∷◌ x) e))
  | inr done ↦ ([], tt, rw done)
]

open_bracket-some : (xs : Bytes) {cs : Bytes} → open_bracket xs ≡ some cs → xs ≡ b'<' ∷ cs
unfolding open_bracket
open_bracket-some [] e = cc
open_bracket-some (x ∷ xs) e = ground arith

-- What stands behind `incl`: blanks, the bracket, and the text of the name.
record Opened (size : ℕ) (rest name : Bytes) : Type 0 where
  gap : Bytes
  inner : Bytes
  blank : Blank gap
  spelled : rest ≡ gap ++ (b'<' ∷ inner)
  read : name_on size [] inner ≡ some name

behind_incl-Opened :
    (size : ℕ) (rest name : Bytes) → behind_incl size rest ≡ some name → Opened size rest name
unfolding behind_incl
behind_incl-Opened size rest name e = elim (Bool-cases (separates rest)) [
  | inr f ↦ absurd (none-ne-some name (rw f at e))
  | inl t ↦ elim (Option-cases (open_bracket (drop_while is_blank rest))) [
    | inl n ↦ absurd (none-ne-some name (rw (t, n) at e))
    | inr (inner, o) ↦
        let (gap, b, split) = split_blanks rest in
        record {
          gap = gap;
          inner = inner;
          blank = b;
          spelled = split ∙ ap (λ r. gap ++ r) (open_bracket-some (drop_while is_blank rest) o);
          read = rw (t, o) at e;
        }
  ]
]

match_incl_sound :
    (size : ℕ) (line name : Bytes)
    → 0 < size
    → match_incl size line ≡ some name
    → IsDirective size line name
unfolding match_incl
match_incl_sound size line name h e =
    elim (Bool-cases (has_prefix (codes "incl") (drop_while is_blank line))) [
      | inr f ↦ absurd (none-ne-some name (rw f at e))
      | inl t ↦
          let tail = drop 4 (drop_while is_blank line) in
          let (indent, b, split) = split_blanks line in
          let o = behind_incl-Opened size tail name (rw t at e) in
          let n = name_on-Named size [] o.inner name h o.read in
          record {
            indent = indent;
            gap = o.gap;
            rest = n.rest;
            spelled =
                split
                ∙ ap (λ r. indent ++ r)
                    (has_prefix_split (codes "incl") (drop_while is_blank line) t
                      ∙ ap (λ r. codes "incl" ++ r)
                          (o.spelled
                            ∙ ap (λ r. o.gap ++ (b'<' ∷ r))
                                (n.spelled ∙ ap (λ r. r ++ (b'>' ∷ n.rest)) (sym n.whole))));
            indent_blank = b;
            gap_blank = o.blank;
            named = rw n.whole n.free;
            nonempty = n.nonempty;
            fits = n.fits;
          }
    ]

-- `match_incl` with room for `size` bytes takes a line for a directive exactly when the line is
-- `incl <name>`, with blanks in front and before the bracket and anything behind, where the name is
-- not empty, holds no `>` and fits with its NUL; and it returns that name.
pub match_incl_iff :
    (size : ℕ) (line name : Bytes)
    → 0 < size
    → (match_incl size line ≡ some name) ↔ IsDirective size line name
match_incl_iff size line name h =
    (match_incl_sound size line name h, match_incl_complete size line name)
