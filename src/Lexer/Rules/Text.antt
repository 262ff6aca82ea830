-- ===== src/Lexer/Rules/Text.antt =====
-- Comments, newlines, literals, `#` and `@`: the first half of the loop body of `lexer_tokenize`.
use lu_language.Prelude.{
  decimal_digits, ℕ, ◌+◌, ◌-◌, ◌*◌, Bytes, Bool, not, ◌&&◌, ◌||◌, [], ◌∷◌, ◌++◌, ◌==◌,
  if◌then◌else◌, isdigit, streq, snprintf, codes,
}
use lu_language.Lexer.Action.{Action, pass, again, emit}
use lu_language.Lexer.Numbers.{read_number}
use lu_language.Lexer.State.{
  Lexer, cur, peek, advance, advance_by, advance_while, skip_line, read_word,
}
use lu_language.Lexer.Strings.{read_string, at_open_guillemet}
use lu_language.Lexer.Token.{
  tok_newline, tok_str_lit, tok_unknown, tok_define, tok_include, tok_pragma, tok_ifdef, tok_endif,
  tok_block_end, tok_block_id, tok_ident, tok_annot,
}

abbrev pub at_comment_end : Lexer → Bool
at_comment_end l = cur l == b'*' && peek l 1 == b'/'

unfoldable pub in_comment : Lexer → Bool
in_comment l = not (cur l == 0) && not (at_comment_end l)

unfoldable pub skip_comment : Lexer → Lexer
skip_comment l =
    let m = advance_while in_comment (advance_by 2 l) in
    if at_comment_end m then advance_by 2 m else m

unfoldable pub comment : ℕ → Lexer → Action
comment c l =
    if c == b'/' && peek l 1 == b'/'
    then again (skip_line l)
    else if c == b'/' && peek l 1 == b'*'
    then again (skip_comment l)
    else pass

unfoldable pub newline : ℕ → Lexer → Action
newline c l = if c == b'\n' then emit tok_newline (b'\n' ∷ []) (advance l) else pass

-- A literal with its mark in front, cut to the buffer that it is printed into.
unfoldable pub emit_string : ℕ → Bytes → Bytes × Lexer → Action
emit_string size mark (s, m) = emit tok_str_lit (snprintf size (mark ++ s)) m

unfoldable pub plain_string : ℕ → Lexer → Action
plain_string c l =
    if c == 0xc2 && peek l 1 == 0xab || c == b'"' || c == b'\''
    then emit tok_str_lit (read_string l).0 (read_string l).1
    else pass

unfoldable pub f_string : ℕ → Lexer → Action
f_string c l =
    if c == b'f'
      && (peek l 1 == b'"' || peek l 1 == b'\'' || (peek l 1 == 0xc2 && peek l 2 == 0xab))
    then emit_string 4200 (codes "$f") (read_string (advance l))
    else pass

-- `$«`. Elsewhere the `$` is passed all the same, and the rules below go on behind it with `c`
-- still `$`: see `Tokenizer.body`.
unfoldable pub template_string : ℕ → Lexer → Action
template_string c l =
    if c == b'$' && at_open_guillemet (advance l)
    then emit_string 4096 (codes "$") (read_string (advance l))
    else pass

unfoldable pub number : ℕ → Lexer → Action
number c l = if isdigit c then emit (read_number l).0 (read_number l).1 (read_number l).2 else pass

-- `atoi` on digits; the text ends at the first other byte.
unfoldable pub atoi_on : ℕ → Bytes → ℕ
atoi_on n [] = n
atoi_on n (c ∷ cs) =
    let onward = atoi_on (n * 10 + (c - b'0')) cs in if isdigit c then onward else n

unfoldable pub print_decimal : ℕ → Bytes
print_decimal n = snprintf 32 (decimal_digits n n [])

abbrev pub tail_of : Bytes → Bytes
tail_of [] = []
tail_of (_ ∷ cs) = cs

abbrev pub starts_with_q : Bytes → Bool
starts_with_q [] = Bool.false
starts_with_q (c ∷ _) = c == b'q'

-- `#q[n]`, with an optional suffix `:word` that is looked at for `end` only.
unfoldable pub block_id : Bytes → Lexer → Action
block_id w l =
    let n = print_decimal (atoi_on 0 (tail_of w)) in
    if cur l == b':'
    then emit
        (if streq (read_word (advance l)).0 (codes "end") then tok_block_end else tok_block_id) n
        (read_word (advance l)).1
    else emit tok_block_id n l

unfoldable pub directive_word : Bytes → Lexer → Action
directive_word w l =
    if streq w (codes "define")
    then emit tok_define (codes "#define") l
    else if streq w (codes "include")
    then emit tok_include (codes "#include") l
    else if streq w (codes "pragma")
    then emit tok_pragma (codes "#pragma") l
    else if streq w (codes "ifdef")
    then emit tok_ifdef (codes "#ifdef") l
    else if streq w (codes "endif")
    then emit tok_endif (codes "#endif") l
    else if starts_with_q w
    then block_id w l
    else emit tok_ident (snprintf 128 (codes "#" ++ w)) l

unfoldable pub directive : ℕ → Lexer → Action
directive c l =
    if c == b'#'
    then if isdigit (cur (advance l))
      then emit tok_unknown (codes "#") (advance l)
      else directive_word (read_word (advance l)).0 (read_word (advance l)).1
    else pass

unfoldable pub annotation : ℕ → Lexer → Action
annotation c l =
    if c == b'@' then emit tok_annot (read_word (advance l)).0 (read_word (advance l)).1 else pass
