-- ===== src/Includes/Directive.antt =====
-- One line: `match_incl` and `skip_header` of src/includes.c.
pub mod Shape
use lu_language.Prelude.{
  ℕ, ◌-◌, ◌+◌, Bytes, Bool, true, false, not, ◌&&◌, ◌||◌, [], ◌∷◌, ◌++◌, Option, none, some, length,
  drop, take_while, drop_while, ltb, leb, ◌==◌, if◌then◌else◌, has_prefix, codes,
}

abbrev pub is_blank : ℕ → Bool
is_blank c = c == b' ' || c == b'\t'

-- The text up to `>`. `namesz` is the room of `name`, and `j` bytes of it are taken.
unfoldable pub name_on : ℕ → Bytes → Bytes → Option Bytes
name_on namesz name [] = none
name_on namesz name (c ∷ cs) =
    let onward = name_on namesz (name ++ (c ∷ [])) cs in
    if c == b'>'
    then if ltb 0 (length name) then some name else none
    else if leb namesz (length name + 1)
    then none
    else onward

-- Behind `incl`: blanks and `<`.
unfoldable pub open_bracket : Bytes → Option Bytes
open_bracket [] = none
open_bracket (c ∷ cs) = if c == b'<' then some cs else none

abbrev pub separates : Bytes → Bool
separates [] = false
separates (c ∷ _) = is_blank c || c == b'<'

unfoldable pub behind_incl : ℕ → Bytes → Option Bytes
behind_incl namesz rest =
    if separates rest
    then elim (open_bracket (drop_while is_blank rest)) [
      | none ↦ none
      | some cs ↦ name_on namesz [] cs
    ]
    else none

-- The name of an `incl <name>` line; `none` where the line is no directive.
unfoldable pub match_incl : ℕ → Bytes → Option Bytes
match_incl namesz line =
    let rest = drop_while is_blank line in
    if has_prefix (codes "incl") rest then behind_incl namesz (drop 4 rest) else none

abbrev pub not_newline : ℕ → Bool
not_newline c = not (c == b'\n')

-- The line at the front of a text, and the text behind it and its newline.
abbrev pub first_line : Bytes → Bytes
first_line p = take_while not_newline p

abbrev pub behind_line : Bytes → Bytes
behind_line p = drop 1 (drop_while not_newline p)

-- `strchr(p, '\n') != NULL`
abbrev pub is_cons : Bytes → Bool
is_cons [] = false
is_cons (_ ∷ _) = true

abbrev pub has_newline : Bytes → Bool
has_newline p = is_cons (drop_while not_newline p)

unfoldable pub skip_header : Bytes → Bytes
skip_header s =
    let t = drop_while is_blank s in if has_prefix (codes "Lu/Language") t then behind_line t else t
