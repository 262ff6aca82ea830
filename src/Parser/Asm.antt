-- ===== src/Parser/Asm.antt =====
-- `asm_extract_raw` of src/parser.c: the text of an `asm` block is cut out of the source by the lines
-- and columns of its tokens.
use lu_language.Prelude.{
  ℕ, zero, suc, ◌+◌, ◌-◌, ◌*◌, ◌≤◌, Bytes, Bool, true, false, ◌||◌, Option, none, some, [], ◌∷◌,
  ◌++◌, ◌==◌, ltb, ◌≡◌, refl, arith, if◌then◌else◌, length, length-append, take, drop, codes, All,
}
use Prim.Native.Nat.{min}
use lu_language.Parser.Cursor.{◌>>=◌}

-- `*p && ln < sl`: the text behind `n` ends of lines.
unfoldable pub skip_lines : ℕ → Bytes → Bytes
skip_lines n [] = []
skip_lines zero (c ∷ cs) = c ∷ cs
skip_lines (suc n) (c ∷ cs) = if c == b'\n' then skip_lines n cs else skip_lines (suc n) cs

-- At most `n` bytes of the line are passed.
unfoldable pub skip_columns : ℕ → Bytes → Bytes
skip_columns zero cs = cs
skip_columns (suc n) [] = []
skip_columns (suc n) (c ∷ cs) = if c == b'\n' then c ∷ cs else skip_columns n cs

unfoldable pub line_text : Bytes → Bytes
line_text [] = []
line_text (c ∷ cs) = if c == b'\n' then [] else c ∷ line_text cs

-- The text behind the next end of a line, if there is one.
unfoldable pub after_newline : Bytes → Option Bytes
after_newline [] = none
after_newline (c ∷ cs) = if c == b'\n' then some cs else after_newline cs

abbrev pub is_trailing : ℕ → Bool
is_trailing c = c == b' ' || c == b'\t' || c == b'\r'

abbrev pub trimmed : ℕ → Bytes → Bytes
trimmed c [] = if is_trailing c then [] else c ∷ []
trimmed c (d ∷ ds) = c ∷ d ∷ ds

-- The buffer without the blanks at its end.
unfoldable pub trim_end : Bytes → Bytes
trim_end [] = []
trim_end (c ∷ cs) = trimmed c (trim_end cs)

-- The bytes `from` to `to` of a line go into the buffer while it holds less than `sizeof(buf) - 8`.
unfoldable pub copy_part : Bytes → ℕ → ℕ → Bytes → Bytes
copy_part buf from to line = buf ++ take (8184 - length buf) (take (to - from) (drop from line))

-- The buffer behind a line `ln` of a block that ends on `el`.
unfoldable pub add_line : ℕ → ℕ → ℕ → ℕ → ℕ → Bytes → Bytes → Bytes
unfolding copy_part trim_end
add_line sl sc el ec ln buf line =
    let from = if ln == sl then sc - 1 else 0 in
    let to = if ln == el then min (ec - 1) (length line) else length line in
    let kept = trim_end (copy_part buf from to line) in
    if ltb ln el then kept ++ codes "\\n\\t" else kept

-- The loop over the lines; each takes one of the fuel.
unfoldable pub asm_lines : ℕ → ℕ → ℕ → ℕ → ℕ → ℕ → Bytes → Bytes → Option Bytes
unfolding add_line line_text after_newline
asm_lines zero sl sc el ec ln buf p = none
asm_lines (suc fuel) sl sc el ec ln buf [] = some buf
asm_lines (suc fuel) sl sc el ec ln buf (c ∷ cs) =
    let buf₁ = add_line sl sc el ec ln buf (line_text (c ∷ cs)) in
    elim (ltb el ln) [
      | true ↦ some buf
      | false ↦ elim (after_newline (c ∷ cs)) [
        | none ↦ some buf₁
        | some rest ↦ asm_lines fuel sl sc el ec (suc ln) buf₁ rest
      ]
    ]

-- A null source has a null text. The outer `none` would be the end of the fuel.
unfoldable pub asm_extract_raw : Option Bytes → ℕ → ℕ → ℕ → ℕ → Option (Option Bytes)
unfolding asm_lines
asm_extract_raw none sl sc el ec = some none
asm_extract_raw (some src) sl sc el ec =
    let p = skip_columns (sc - 2) (skip_lines (sl - 1) src) in
    asm_lines (suc (length p)) sl sc el ec sl [] p >>= λ buf. some (some (trim_end buf))

abbrev pub OneLine : Bytes → Type 0
OneLine line = All (λ c. (c == b'\n') ≡ false) line

skip_columns-line :
    (n : ℕ) (line rest : Bytes)
    → OneLine line
    → skip_columns n (line ++ (b'\n' ∷ rest)) ≡ drop n line ++ (b'\n' ∷ rest)
unfolding skip_columns
skip_columns-line zero line rest h = refl
skip_columns-line (suc n) [] rest h = refl
skip_columns-line (suc n) (c ∷ line) rest h = rw h.0 (skip_columns-line n line rest h.1)

line_text-line : (line rest : Bytes) → OneLine line → line_text (line ++ (b'\n' ∷ rest)) ≡ line
unfolding line_text
line_text-line [] rest h = refl
line_text-line (c ∷ line) rest h = rw (h.0, line_text-line line rest h.1)

after_newline-line :
    (line rest : Bytes) → OneLine line → after_newline (line ++ (b'\n' ∷ rest)) ≡ some rest
unfolding after_newline
after_newline-line [] rest h = refl
after_newline-line (c ∷ line) rest h = rw h.0 (after_newline-line line rest h.1)

drop-OneLine : (n : ℕ) (line : Bytes) → OneLine line → OneLine (drop n line)
drop-OneLine zero line h = h
drop-OneLine (suc n) [] h = h
drop-OneLine (suc n) (c ∷ line) h = drop-OneLine n line h.1

length-drop : (n : ℕ) (line : Bytes) → length (drop n line) ≡ length line - n
length-drop zero line = omega arith
length-drop (suc n) [] = omega arith
length-drop (suc n) (c ∷ line) = omega (arith, length-drop n line)

drop_past : (n : ℕ) (line : Bytes) → length line ≤ n → drop n line ≡ []
drop_past zero [] h = refl
drop_past zero (c ∷ line) h = absurd (omega arith)
drop_past (suc n) [] h = refl
drop_past (suc n) (c ∷ line) h = drop_past n line (omega arith)

pub asm_lines-line :
    (fuel sl sc el ec ln : ℕ) (buf line rest : Bytes)
    → OneLine line
    → ltb el ln ≡ false
    → asm_lines (suc fuel) sl sc el ec ln buf (line ++ (b'\n' ∷ rest))
      ≡ asm_lines fuel sl sc el ec (suc ln) (add_line sl sc el ec ln buf line) rest
unfolding asm_lines line_text after_newline
asm_lines-line fuel sl sc el ec ln buf [] rest h e = rw (e, asm_lines)
asm_lines-line fuel sl sc el ec ln buf (c ∷ line) rest h e =
    rw (asm_lines, e, h.0, after_newline-line line rest h.1, line_text-line line rest h.1) (rw h.0)

-- Behind its last line a block has nothing more.
asm_lines_past :
    (fuel sl sc el ec ln : ℕ) (buf p : Bytes)
    → 1 ≤ fuel
    → ltb el ln ≡ true
    → asm_lines fuel sl sc el ec ln buf p ≡ some buf
unfolding asm_lines
asm_lines_past zero sl sc el ec ln buf p h e = absurd (omega arith)
asm_lines_past (suc fuel) sl sc el ec ln buf [] h e = refl
asm_lines_past (suc fuel) sl sc el ec ln buf (c ∷ cs) h e = rw (asm_lines, e)

take_none : (n : ℕ) → let none_left : Bytes = [] in take n none_left ≡ []
take_none zero = refl
take_none (suc n) = refl

add_line_none :
    (sl sc ec : ℕ) (line : Bytes) → length line ≤ sc - 1 → add_line sl sc sl ec sl [] line ≡ []
unfolding add_line copy_part trim_end
add_line_none sl sc ec line h =
    let here : (sl == sl) ≡ true = ground arith in
    let ends : ltb sl sl ≡ false = ground arith in
    rw (here, ends, drop_past (sc - 1) line h, take_none, copy_part)

-- A block within one line loses all its text when its first token stands at a column sc so far to
-- the right that the line has at most 2 sc - 3 bytes: the column is passed twice.
pub asm_extract_raw-OneLine :
    (src line rest : Bytes) (sl sc ec : ℕ)
    → skip_lines (sl - 1) src ≡ line ++ (b'\n' ∷ rest)
    → OneLine line
    → length line + 3 ≤ 2 * sc
    → asm_extract_raw (some src) sl sc sl ec ≡ some (some [])
unfolding asm_extract_raw trim_end
asm_extract_raw-OneLine src line rest sl sc ec at one h =
    let kept = drop (sc - 2) line in
    let size = length-drop (sc - 2) line in
    let total = length-append kept (b'\n' ∷ rest) in
    let passed : skip_columns (sc - 2) (skip_lines (sl - 1) src) ≡ kept ++ (b'\n' ∷ rest) =
      rw at (skip_columns-line (sc - 2) line rest one) in
    let ends : ltb sl sl ≡ false = ground arith in
    let past : ltb sl (suc sl) ≡ true = ground arith in
    let first =
      asm_lines-line (length (kept ++ (b'\n' ∷ rest))) sl sc sl ec sl [] kept rest
        (drop-OneLine (sc - 2) line one) ends in
    let behind =
      asm_lines_past (length (kept ++ (b'\n' ∷ rest))) sl sc sl ec (suc sl) [] rest (omega arith)
        past in
    rw (passed, first, add_line_none sl sc ec kept (omega arith), behind)
