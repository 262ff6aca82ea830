-- ===== src/Includes/Expand.antt =====
-- `expand` and `lu_expand_includes` of src/includes.c.
pub mod Once
pub mod Agree
pub mod ReadOnce
pub mod Plain
pub mod Fuel
use lu_language.Prelude.{
  ℕ, zero, suc, ◌+◌, Bytes, Bool, true, false, List, [], ◌∷◌, ◌++◌, Option, none, some, length,
  ◌==◌, if◌then◌else◌, has_prefix, c_str, codes,
}
use lu_language.Includes.Directive.{match_incl, first_line, behind_line, has_newline, skip_header}
use lu_language.Includes.Paths.{Os, resolve, canonical, already_seen, has_suffix}

-- The files pulled in so far, and the text put out.
pub record Incl : Type 0 where
  pub seen : List Bytes
  pub out : Bytes

-- The messages, with what they name: file, line and the name or the path.
pub data Error : Type 0 where
  too_deep : Bytes → Error
  not_found : Bytes → ℕ → Bytes → Error
  cannot_read : Bytes → ℕ → Bytes → Error
  is_strict : Bytes → ℕ → Bytes → Error

pub data Result {ℓ} (A : Type ℓ) : Type ℓ where
  ok : A → Result A
  err : Error → Result A

infixl 5 ◌>>=◌
abbrev pub ◌>>=◌ {ℓ κ} : {A : Type ℓ} {B : Type κ} → Result A → (A → Result B) → Result B
ok a >>= f = f a
err e >>= f = err e

abbrev pub put : Incl → Bytes → Incl
put st text = record st { out = st.out ++ text }

-- The bytes of ── and of —.
abbrev pub rule : Bytes
rule = 0xe2 ∷ 0x94 ∷ 0x80 ∷ 0xe2 ∷ 0x94 ∷ 0x80 ∷ []

abbrev pub em_dash : Bytes
em_dash = 0xe2 ∷ 0x80 ∷ 0x94 ∷ []

abbrev pub header_line : Bytes → Bytes
header_line name = codes "Import \"<" ++ (name ++ codes ">\"\n")

abbrev pub repeat_line : Bytes → Bytes
repeat_line name =
    codes "// incl <" ++ (name ++ (codes "> " ++ (em_dash ++ codes " already included\n")))

abbrev pub begin_line : Bytes → Bytes → Bytes
begin_line name full =
    codes "// "
    ++ (rule
        ++ (codes " incl <"
            ++ (name ++ (codes ">  (" ++ (full ++ (codes ") " ++ (rule ++ codes "\n")))))))

abbrev pub end_line : Bytes → Bytes
end_line name =
    codes "// " ++ (rule ++ (codes " end <" ++ (name ++ (codes "> " ++ (rule ++ codes "\n")))))

-- `expand` one level deeper: the file, its text, the state.
abbrev pub Expander : Type 0
Expander = Bytes → Bytes → Incl → Result Incl

-- A file that is read for the first time: `isrc` is its text.
unfoldable pub splice : Expander → Bytes → ℕ → Bytes → Bytes → Bytes → Incl → Result Incl
splice deeper from_file line_no name full isrc st =
    let text = skip_header isrc in
    if has_prefix (codes "Lu/Strict") text
    then err (is_strict from_file line_no name)
    else (do st' ← deeper full text (put st (begin_line name full)); ok (put st' (end_line name)))

abbrev pub remember : Incl → Bytes → Incl
remember st path = record st { seen = st.seen ++ (path ∷ []) }

-- A file by its canonical path.
unfoldable pub include_file : Os → Expander → Bytes → ℕ → Bytes → Bytes → Incl → Result Incl
include_file os deeper from_file line_no name full st =
    if already_seen st.seen full then ok (put st (repeat_line name)) else elim (os.read_file full) [
      | none ↦ err (cannot_read from_file line_no full)
      | some isrc ↦ splice deeper from_file line_no name full (c_str isrc) (remember st full)
    ]

-- A directive.
unfoldable pub directive : Os → Expander → Bytes → ℕ → Bytes → Incl → Result Incl
directive os deeper from_file line_no name st =
    if has_suffix (codes ".h") name
    then ok (put st (header_line name))
    else elim (resolve os from_file name) [
      | none ↦ err (not_found from_file line_no name)
      | some full ↦ include_file os deeper from_file line_no name (canonical os full) st
    ]

abbrev pub copy_line : Bytes → Incl → Incl
copy_line p st = put st (first_line p ++ (if has_newline p then b'\n' ∷ [] else []))

-- One round of the loop, at the text `p`.
unfoldable pub expand_line : Os → Expander → Bytes → ℕ → Bytes → Incl → Result Incl
expand_line os deeper from_file line_no p st = elim (match_incl 512 (first_line p)) [
  | some name ↦ directive os deeper from_file line_no name st
  | none ↦ ok (copy_line p st)
]

-- The loop over the lines. Each round passes a byte at least, so the text is fuel enough.
unfoldable pub expand_on : Os → Expander → Bytes → Bytes → ℕ → Bytes → Incl → Result Incl
expand_on os deeper from_file [] line_no p st = ok st
expand_on os deeper from_file (_ ∷ fuel) line_no [] st = ok st
expand_on os deeper from_file (_ ∷ fuel) line_no (c ∷ cs) st =
    expand_line os deeper from_file (line_no + 1) (c ∷ cs) st >>= λ st'.
    expand_on os deeper from_file fuel (line_no + 1) (behind_line (c ∷ cs)) st'

-- The first argument is the number of levels that are left, `INCL_MAX_DEPTH + 1 - depth`.
unfoldable pub expand : Os → ℕ → Expander
expand os zero from_file src st = err (too_deep from_file)
expand os (suc levels) from_file src st =
    expand_on os (λ f s t. expand os levels f s t) from_file src 0 src st

abbrev pub incl_max_depth : ℕ
incl_max_depth = 32

unfoldable pub lu_expand_includes : Os → Bytes → Bytes → Result Bytes
lu_expand_includes os path src =
    expand os (incl_max_depth + 1) path (c_str src) (record { seen = []; out = [] }) >>= λ st.
    ok st.out
