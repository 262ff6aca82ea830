-- ===== src/Includes/Expand/Plain.antt =====
-- What `expand` of src/includes.c does with text that holds no directive, and with a file of such
-- text.
use lu_language.Prelude.{
  ℕ, suc, ◌+◌, ◌≤◌, Bytes, true, false, All, get_or, drop_while, ◌≢◌, [], ◌∷◌, ◌++◌, append_assoc,
  append-nil, none, some, length, ◌≡◌, refl, sym, ap, ◌∙◌, inl, inr, Bool-cases, if◌then◌else◌,
  ◌==◌, has_prefix, c_str, codes, arith,
}
use lu_language.Includes.Directive.{
  match_incl, first_line, is_blank, behind_line, has_newline, skip_header,
}
use lu_language.Includes.Expand.{
  Incl, Result, ok, Expander, put, splice, remember, include_file, directive, copy_line,
  expand_line, expand_on, expand, begin_line, end_line, lu_expand_includes,
}
use lu_language.Includes.Paths.{Os, already_seen, resolve, canonical, has_suffix}

-- No line of the text is a directive.
pub data IsPlain : Bytes → Type 0 where
  none_left : IsPlain []
  line :
      {c : ℕ} {cs : Bytes}
      → match_incl 512 (first_line (c ∷ cs)) ≡ none
      → IsPlain (behind_line (c ∷ cs))
      → IsPlain (c ∷ cs)

line_split :
    (p : Bytes) → first_line p ++ ((if has_newline p then b'\n' ∷ [] else []) ++ behind_line p) ≡ p
line_split [] = refl
line_split (c ∷ cs) = elim (Bool-cases (c == b'\n')) [
  | inl at ↦ rw at (ground arith)
  | inr off ↦ rw off (ap (◌∷◌ c) (line_split cs))
]

length-behind_line : (p : Bytes) → length (behind_line p) ≤ length p
length-behind_line [] = omega arith
length-behind_line (c ∷ cs) = elim (Bool-cases (c == b'\n')) [
  | inl at ↦ rw at (omega arith)
  | inr off ↦ rw off (omega (arith, length-behind_line cs))
]

pub length-behind_cons : (c : ℕ) (cs : Bytes) → length (behind_line (c ∷ cs)) ≤ length cs
length-behind_cons c cs = elim (Bool-cases (c == b'\n')) [
  | inl at ↦ rw at (omega arith)
  | inr off ↦ rw off (length-behind_line cs)
]

put-put : (st : Incl) (a b : Bytes) → put (put st a) b ≡ put st (a ++ b)
put-put st a b = ap (λ t. record st { out = t }) (append_assoc st.out a b)

put-nil : (st : Incl) → put st [] ≡ st
put-nil st = ap (λ t. record st { out = t }) (append-nil st.out)

copied :
    (c : ℕ) (cs : Bytes) (st : Incl)
    → put (copy_line (c ∷ cs) st) (behind_line (c ∷ cs)) ≡ put st (c ∷ cs)
copied c cs st =
    put-put st _ (behind_line (c ∷ cs))
    ∙ ap (put st)
        (append_assoc (first_line (c ∷ cs)) _ (behind_line (c ∷ cs)) ∙ line_split (c ∷ cs))

module _ (os : Os) (deeper : Expander) (from_file : Bytes) where
  expand_line-plain :
      (line_no : ℕ) (p : Bytes) (st : Incl)
      → match_incl 512 (first_line p) ≡ none
      → expand_line os deeper from_file line_no p st ≡ ok (copy_line p st)
  unfolding expand_line
  expand_line-plain line_no p st m = rw (m, expand_line)

  expand_on-plain :
      (fuel p : Bytes) (line_no : ℕ) (st : Incl)
      → IsPlain p
      → length p ≤ length fuel
      → expand_on os deeper from_file fuel line_no p st ≡ ok (put st p)
  unfolding expand_on
  expand_on-plain [] [] line_no st h f = ap ok (sym (put-nil st))
  expand_on-plain [] (c ∷ cs) line_no st h f = absurd (omega arith)
  expand_on-plain (_ ∷ fuel) [] line_no st h f = ap ok (sym (put-nil st))
  expand_on-plain (_ ∷ fuel) (c ∷ cs) line_no st (line m h) f =
      rw (expand_line-plain (line_no + 1) (c ∷ cs) st m) (
        expand_on-plain fuel (behind_line (c ∷ cs)) (line_no + 1) (copy_line (c ∷ cs) st) h
          (omega (arith, length-behind_cons c cs))
        ∙ ap ok (copied c cs st))

module _ (os : Os) (from_file : Bytes) where
  expand-plain :
      (levels : ℕ) (p : Bytes) (st : Incl)
      → IsPlain p
      → expand os (suc levels) from_file p st ≡ ok (put st p)
  unfolding expand
  expand-plain levels p st h = expand_on-plain os _ from_file p p 0 st h (omega arith)

-- A program in which no line is a directive is not changed, whatever files there are.
pub lu_expand_includes-plain :
    (os : Os) (path src : Bytes)
    → IsPlain (c_str src)
    → lu_expand_includes os path src ≡ ok (c_str src)
unfolding lu_expand_includes
lu_expand_includes-plain os path src h =
    rw (expand-plain os path 32 (c_str src) (record { seen = []; out = [] }) h)

splice-plain :
    (os : Os) (levels : ℕ) (from_file : Bytes) (line_no : ℕ) (name full isrc : Bytes) (st : Incl)
    → has_prefix (codes "Lu/Strict") (skip_header isrc) ≡ false
    → IsPlain (skip_header isrc)
    → splice (λ f s t. expand os (suc levels) f s t) from_file line_no name full isrc st
      ≡ ok (put st (begin_line name full ++ (skip_header isrc ++ end_line name)))
unfolding splice
splice-plain os levels from_file line_no name full isrc st v p =
    let begun = put st (begin_line name full) in
    rw (v, expand-plain os full levels (skip_header isrc) begun p)
      (ap ok (
        put-put begun (skip_header isrc) (end_line name)
        ∙ put-put st (begin_line name full) (skip_header isrc ++ end_line name)))

include_file-plain :
    (os : Os) (levels : ℕ) (from_file : Bytes) (line_no : ℕ) (name full isrc : Bytes) (st : Incl)
    {r : Result Incl}
    → already_seen st.seen full ≡ false
    → os.read_file full ≡ some isrc
    → splice
        (λ f s t. expand os (suc levels) f s t)
        from_file
        line_no
        name
        full
        (c_str isrc)
        (remember st full)
      ≡ r
    → include_file os (λ f s t. expand os (suc levels) f s t) from_file line_no name full st ≡ r
unfolding include_file
include_file-plain os levels from_file line_no name full isrc st s f e = rw (s, f) e

-- What stands behind the header line of an included text: a line that begins with `Lu/Language` and
-- blanks in front of it go; of a text without that line only the blanks in front go.
pub data HasBody : Bytes → Bytes → Type 0 where
  headed :
      (blanks rest body : Bytes)
      → All (λ c. is_blank c ≡ true) blanks
      → All (λ c. c ≢ b'\n') rest
      → HasBody (blanks ++ (codes "Lu/Language" ++ (rest ++ (b'\n' ∷ body)))) body
  bare :
      (blanks body : Bytes)
      → All (λ c. is_blank c ≡ true) blanks
      → is_blank (get_or body 0 0) ≡ false
      → has_prefix (codes "Lu/Language") body ≡ false
      → HasBody (blanks ++ body) body

drop_blanks :
    (blanks text : Bytes)
    → All (λ c. is_blank c ≡ true) blanks
    → is_blank (get_or text 0 0) ≡ false
    → drop_while is_blank (blanks ++ text) ≡ text
drop_blanks [] [] h n = refl
drop_blanks [] (c ∷ cs) h n = rw n refl
drop_blanks (b ∷ bs) text h n = rw h.0 (drop_blanks bs text h.1 n)

behind_line-headed :
    (rest body : Bytes) → All (λ c. c ≢ b'\n') rest → behind_line (rest ++ (b'\n' ∷ body)) ≡ body
behind_line-headed [] body h = refl
behind_line-headed (c ∷ cs) body h =
    let off : (c == b'\n') ≡ false = let n = h.0 in ground arith in
    rw off (behind_line-headed cs body h.1)

skip_header-HasBody : {text body : Bytes} → HasBody text body → skip_header text ≡ body
unfolding skip_header has_prefix
skip_header-HasBody (headed blanks rest body h n) =
    rw (drop_blanks blanks (codes "Lu/Language" ++ (rest ++ (b'\n' ∷ body))) h refl)
      (behind_line-headed rest body n)
skip_header-HasBody (bare blanks body h n v) = rw (drop_blanks blanks body h n, v) refl

-- The UTF-8 bytes of two horizontal lines.
abbrev pub dashes : Bytes
dashes = 0xe2 ∷ 0x94 ∷ 0x80 ∷ 0xe2 ∷ 0x94 ∷ 0x80 ∷ []

-- With a level of nesting left, a directive whose name does not end in .h and resolves to a readable
-- file that was not seen yet, whose body is no v5 file and holds no directive itself, puts out that
-- body between the two marks, and notes the file. The body is the text up to its first NUL byte
-- without the header line, or without leading blanks if it has none.
pub directive-plain :
    (os : Os) (levels : ℕ) (from_file : Bytes) (line_no : ℕ) (name full path isrc body : Bytes)
    (st : Incl)
    → has_suffix (codes ".h") name ≡ false
    → resolve os from_file name ≡ some full
    → canonical os full ≡ path
    → already_seen st.seen path ≡ false
    → os.read_file path ≡ some isrc
    → HasBody (c_str isrc) body
    → has_prefix (codes "Lu/Strict") body ≡ false
    → IsPlain body
    → directive os (λ f s t. expand os (suc levels) f s t) from_file line_no name st
      ≡ ok (record {
        seen = st.seen ++ (path ∷ []);
        out =
            st.out
            ++ ((codes "// "
                  ++ (dashes
                      ++ (codes " incl <"
                          ++ (name
                              ++ (codes ">  ("
                                  ++ (path ++ (codes ") " ++ (dashes ++ codes "\n"))))))))
                ++ (body
                    ++ (codes "// "
                        ++ (dashes
                            ++ (codes " end <"
                                ++ (name ++ (codes "> " ++ (dashes ++ codes "\n"))))))));
      })
unfolding directive
directive-plain os levels from_file line_no name full path isrc body st h r c s f b v p =
    let text = skip_header-HasBody b in
    rw (h, r, c)
      (include_file-plain os levels from_file line_no name path isrc st s f (
          splice-plain os levels from_file line_no name path (c_str isrc) (remember st path)
            (rw text v) (rw text p))
        ∙ ap (λ t. ok (put (remember st path) (begin_line name path ++ (t ++ end_line name)))) text)
