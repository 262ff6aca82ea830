-- ===== src/Parser/Overflow.antt =====
-- The marks between the lines that `asm_extract_raw` of src/parser.c puts into its buffer, with no
-- test of the buffer's size.
use lu_language.Prelude.{
  ℕ, zero, suc, ◌+◌, ◌-◌, ◌*◌, ◌≤◌, ◌<◌, Bytes, true, false, some, List, [], ◌∷◌, ◌++◌, ◌==◌, ltb,
  ◌≡◌, refl, ◌∙◌, sym, ap, ◌⊎◌, inl, inr, arith, length, length-append, append_assoc, codes, All,
  Bool-cases, Option-cases,
}
use lu_language.Parser.Asm.{
  is_trailing, trimmed, trim_end, copy_part, add_line, asm_lines, asm_extract_raw, skip_lines,
  skip_columns, after_newline, line_text, OneLine, asm_lines-line,
}

-- The buffer has room for `n` marks up to a byte that is not trimmed.
abbrev HasMarks : ℕ → Bytes → Type 0
HasMarks n buf =
    (n ≡ 0)
    ⊎ ((b : Bytes) × ((c : ℕ) × ((x : Bytes) × ((is_trailing c ≡ false)
              × ((buf ≡ b ++ (c ∷ x)) × (4 * n ≤ suc (length b)))))))

trim_end-solid :
    (b : Bytes) (c : ℕ) (x : Bytes)
    → is_trailing c ≡ false
    → (y : Bytes) × (trim_end (b ++ (c ∷ x)) ≡ b ++ (c ∷ y))
unfolding trim_end
trim_end-solid [] c x h = elim (trim_end x) as (λ r. (y : Bytes) × (trimmed c r ≡ c ∷ y)) [
  | [] ↦ ([], rw h)
  | d ∷ ds ↦ (d ∷ ds, refl)
]
trim_end-solid (d ∷ []) c x h = let ih = trim_end-solid [] c x h in (ih.0, rw ih.1)
trim_end-solid (d ∷ e ∷ b) c x h = let ih = trim_end-solid (e ∷ b) c x h in (ih.0, rw ih.1)

trim_end-HasMarks : (n : ℕ) (buf : Bytes) → HasMarks n buf → HasMarks n (trim_end buf)
trim_end-HasMarks n buf (inl e) = inl e
trim_end-HasMarks n buf (inr (b, (c, (x, (solid, (same, room)))))) =
    let t = trim_end-solid b c x solid in
    inr (b, (c, (t.0, (solid, (ap trim_end same ∙ t.1, room)))))

append-HasMarks : (n : ℕ) (buf more : Bytes) → HasMarks n buf → HasMarks n (buf ++ more)
append-HasMarks n buf more (inl e) = inl e
append-HasMarks n buf more (inr (b, (c, (x, (solid, (same, room)))))) =
    inr
      (b, (c, (x ++ more, (solid, (ap (λ y. y ++ more) same ∙ append_assoc b (c ∷ x) more, room)))))

length-HasMarks : (n : ℕ) (buf : Bytes) → HasMarks n buf → 4 * n ≤ length buf
length-HasMarks n buf (inl e) = omega arith
length-HasMarks n buf (inr (b, (c, (x, (solid, (same, room)))))) =
    let total = length-append b (c ∷ x) in let size = ap length same in omega arith

mark-HasMarks : (n : ℕ) (buf : Bytes) → HasMarks n buf → HasMarks (suc n) (buf ++ codes "\\n\\t")
mark-HasMarks n buf h =
    let size = length-HasMarks n buf h in
    let total = length-append buf (codes "\\n\\") in
    inr (
      buf ++ codes "\\n\\",
      (b't', ([], (refl, (sym (append_assoc buf (codes "\\n\\") (codes "t")), omega arith)))),
    )

module _ (sl sc el ec : ℕ) where
  add_line-HasMarks :
      (n ln : ℕ) (buf line : Bytes) → HasMarks n buf → HasMarks n (add_line sl sc el ec ln buf line)
  unfolding add_line copy_part
  add_line-HasMarks n ln buf line h =
      let kept = trim_end-HasMarks n _ (append-HasMarks n buf _ h) in
      elim (Bool-cases (ltb ln el)) [
        | inl e ↦ rw e (append-HasMarks n _ (codes "\\n\\t") kept)
        | inr e ↦ rw e kept
      ]

  add_line_more :
      (n ln : ℕ) (buf line : Bytes)
      → ltb ln el ≡ true
      → HasMarks n buf
      → HasMarks (suc n) (add_line sl sc el ec ln buf line)
  unfolding add_line copy_part
  add_line_more n ln buf line e h =
      let kept = trim_end-HasMarks n _ (append-HasMarks n buf _ h) in rw e (mark-HasMarks n _ kept)

after_newline_lt : (p rest : Bytes) → after_newline p ≡ some rest → length rest < length p
unfolding after_newline
after_newline_lt [] rest h = cc
after_newline_lt (c ∷ p) rest h = elim (Bool-cases (c == b'\n')) [
  | inl e ↦
      let same : some p ≡ some rest = rw e at h in
      let size : length p ≡ length rest = ap length (cc) in omega arith
  | inr e ↦
      let onward : after_newline p ≡ some rest = rw e at h in
      let ih = after_newline_lt p rest onward in omega arith
]

abbrev pub join_lines : List Bytes → Bytes → Bytes
join_lines [] rest = rest
join_lines (l ∷ ls) rest = l ++ (b'\n' ∷ join_lines ls rest)

module _ (sl sc el ec : ℕ) where
  asm_lines-HasMarks :
      (fuel n ln : ℕ) (buf p : Bytes)
      → length p < fuel
      → HasMarks n buf
      → (end : Bytes) × ((asm_lines fuel sl sc el ec ln buf p ≡ some end) × HasMarks n end)
  unfolding asm_lines
  asm_lines-HasMarks zero n ln buf p h marks = absurd (omega arith)
  asm_lines-HasMarks (suc fuel) n ln buf [] h marks = (buf, (refl, marks))
  asm_lines-HasMarks (suc fuel) n ln buf (c ∷ cs) h marks =
      let buf₁ = add_line sl sc el ec ln buf (line_text (c ∷ cs)) in
      let marks₁ = add_line-HasMarks sl sc el ec n ln buf (line_text (c ∷ cs)) marks in
      elim (Bool-cases (ltb el ln)) [
        | inl e ↦ (buf, (rw (asm_lines, e), marks))
        | inr e ↦ elim (Option-cases (after_newline (c ∷ cs))) [
          | inl none_left ↦ (buf₁, (rw (asm_lines, e, none_left), marks₁))
          | inr (rest, found) ↦
              let less = after_newline_lt (c ∷ cs) rest found in
              let ih = asm_lines-HasMarks fuel n (suc ln) buf₁ rest (omega arith) marks₁ in
              (ih.0, (rw (asm_lines, e, found) ih.1.0, ih.1.1))
        ]
      ]

  asm_lines-join_lines :
      (ls : List Bytes) (fuel n ln : ℕ) (buf rest : Bytes)
      → All OneLine ls
      → ln + length ls ≤ el
      → length (join_lines ls rest) < fuel
      → HasMarks n buf
      → (end : Bytes) × ((asm_lines fuel sl sc el ec ln buf (join_lines ls rest) ≡ some end)
          × HasMarks (length ls + n) end)
  asm_lines-join_lines [] fuel n ln buf rest one h less marks =
      let run = asm_lines-HasMarks fuel n ln buf rest less marks in
      let none_more : n ≡ 0 + n = omega arith in (run.0, (run.1.0, rw none_more at run.1.1))
  asm_lines-join_lines (l ∷ ls) zero n ln buf rest one h less marks = absurd (omega arith)
  asm_lines-join_lines (l ∷ ls) (suc fuel) n ln buf rest one h less marks =
      let before : ltb ln el ≡ true = ground arith in
      let within : ltb el ln ≡ false = ground arith in
      let total = length-append l (b'\n' ∷ join_lines ls rest) in
      let step = asm_lines-line fuel sl sc el ec ln buf l (join_lines ls rest) one.0 within in
      let ih =
        asm_lines-join_lines ls fuel (suc n) (suc ln) (add_line sl sc el ec ln buf l) rest one.1
          (omega arith) (omega arith) (add_line_more sl sc el ec n ln buf l before marks) in
      let count : length ls + suc n ≡ suc (length ls) + n = omega arith in
      (ih.0, (step ∙ ih.1.0, rw count at ih.1.1))

-- The text of an asm block has at least four bytes for each of its lines but the last, whatever they
-- hold, so more than the 8192 of the buffer for a block of more than 2049 lines.
pub asm_extract_raw_long :
    (src rest : Bytes) (ls : List Bytes) (sl sc el ec : ℕ)
    → skip_columns (sc - 2) (skip_lines (sl - 1) src) ≡ join_lines ls rest
    → All OneLine ls
    → sl + length ls ≤ el
    → (text : Bytes) × ((asm_extract_raw (some src) sl sc el ec ≡ some (some text))
        × (4 * length ls ≤ length text))
unfolding asm_extract_raw
asm_extract_raw_long src rest ls sl sc el ec at one h =
    let p = join_lines ls rest in
    let run =
      asm_lines-join_lines sl sc el ec ls (suc (length p)) 0 sl [] rest one h (omega arith)
        (inl refl) in
    let kept = trim_end-HasMarks (length ls + 0) run.0 run.1.1 in
    let size = length-HasMarks (length ls + 0) (trim_end run.0) kept in
    (trim_end run.0, (rw (at, run.1.0), omega arith))
