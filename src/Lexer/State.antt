-- ===== src/Lexer/State.antt =====
-- The state of the lexer and its small helpers: `cur` to `skip_line`, `read_word` and the payload
-- readers of src/lexer.c. `rest` is the text from `src + pos` up to the end of the source.
use lu_language.Prelude.{
  ℕ, zero, suc, ◌+◌, ◌-◌, Bytes, Bool, not, ◌&&◌, ◌||◌, [], ◌∷◌, ◌++◌, length, get_or, take, ltb,
  ◌==◌, if◌then◌else◌, isalnum, has_prefix, c_str, String, codes,
}

pub record Lexer : Type 0 where
  pub rest : Bytes
  pub pos : ℕ
  pub line : ℕ
  pub col : ℕ

-- `len` is `strlen(src)`.
unfoldable pub lexer_new : Bytes → Lexer
lexer_new src = record { rest = c_str src; pos = 0; line = 1; col = 1 }

-- The byte `off` places ahead, or NUL behind the end.
unfoldable pub peek : Lexer → ℕ → ℕ
peek l off = get_or l.rest off 0

unfoldable pub cur : Lexer → ℕ
cur l = get_or l.rest 0 0

abbrev pub step_over : ℕ → Bytes → Lexer → Lexer
step_over c cs l =
    if c == b'\n'
    then record { rest = cs; pos = l.pos + 1; line = l.line + 1; col = 1 }
    else record { rest = cs; pos = l.pos + 1; line = l.line; col = l.col + 1 }

abbrev pub advance_in : Bytes → Lexer → Lexer
advance_in [] l = l
advance_in (c ∷ cs) l = step_over c cs l

unfoldable pub advance : Lexer → Lexer
advance l = advance_in l.rest l

-- `for (int i = 0; i < n; i++) advance(l);`, and `n` calls in a row
unfoldable pub advance_by : ℕ → Lexer → Lexer
advance_by zero l = l
advance_by (suc n) l = advance_by n (advance l)

unfoldable pub starts_with : Lexer → String → Bool
starts_with l s = has_prefix (codes s) l.rest

-- `while (test(l)) advance(l);`. Each round passes one byte, so the text left is fuel enough.
unfoldable pub advance_on : (Lexer → Bool) → Bytes → Lexer → Lexer
advance_on test [] l = l
advance_on test (_ ∷ fuel) l =
    let onward = advance_on test fuel (advance l) in if test l then onward else l

unfoldable pub advance_while : (Lexer → Bool) → Lexer → Lexer
advance_while test l = advance_on test l.rest l

-- `while (p(cur(l))) advance(l);`
unfoldable pub skip_while : (ℕ → Bool) → Lexer → Lexer
skip_while p l = advance_while (λ m. p (cur m)) l

abbrev pub is_space : ℕ → Bool
is_space c = c == b' ' || c == b'\t' || c == b'\r'

abbrev pub in_line : ℕ → Bool
in_line c = not (c == 0) && not (c == b'\n')

unfoldable pub skip_spaces : Lexer → Lexer
skip_spaces l = skip_while is_space l

unfoldable pub skip_line : Lexer → Lexer
skip_line l = skip_while in_line l

-- `memcpy(w, l->src + start, l->pos - start)`, the lexer having gone from `l` to `m`
unfoldable pub text_between : Lexer → Lexer → Bytes
text_between l m = take (m.pos - l.pos) l.rest

unfoldable pub is_word_byte : ℕ → Bool
is_word_byte c = not (c == 0) && (isalnum c || c == b'_' || c == b'.')

-- The word, and the lexer behind it.
unfoldable pub read_word : Lexer → Bytes × Lexer
read_word l = let m = skip_while is_word_byte l in (text_between l m, m)

-- The loop of the payload readers: bytes up to `stop`, of which `buf[size]` keeps the first
-- `size - 1`.
unfoldable pub payload_on : ℕ → ℕ → Bytes → Bytes → Lexer → Bytes × Lexer
payload_on size stop [] buf l = (buf, l)
payload_on size stop (_ ∷ fuel) buf l =
    let onward =
      payload_on size stop fuel (if ltb (length buf) (size - 1) then buf ++ (cur l ∷ []) else buf)
        (advance l) in
    if not (cur l == 0) && not (cur l == stop) then onward else (buf, l)

-- `if (cur(l) == stop) advance(l);`
unfoldable pub skip_byte : ℕ → Lexer → Lexer
skip_byte stop l = if cur l == stop then advance l else l

unfoldable pub read_payload : ℕ → ℕ → Lexer → Bytes × Lexer
read_payload size stop l =
    let (buf, m) = payload_on size stop l.rest [] l in (buf, skip_byte stop m)

-- `read_cor`: the key behind `{`, returned by `lu_strdup`
unfoldable pub read_cor : Lexer → Bytes × Lexer
read_cor l = let (buf, m) = read_payload 512 b'}' (advance l) in (c_str buf, m)

unfoldable pub read_brace_payload : Lexer → Bytes × Lexer
read_brace_payload l = let (buf, m) = read_payload 512 b'}' (advance l) in (c_str buf, m)

unfoldable pub read_bracket_payload : Lexer → Bytes × Lexer
read_bracket_payload l = let (buf, m) = read_payload 256 b']' (advance l) in (c_str buf, m)
