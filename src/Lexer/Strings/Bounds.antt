-- ===== src/Lexer/Strings/Bounds.antt =====
-- The buffer of `read_string`, src/lexer.c.
use lu_language.Prelude.{
  ℕ, ◌+◌, ◌≤◌, ◌<◌, Bytes, false, [], ◌∷◌, ◌++◌, length, length-append, ◌≡◌, inl, inr, Bool-cases,
  ◌==◌, arith,
}
use lu_language.Lexer.State.{Lexer, cur, advance}
use lu_language.Lexer.Strings.{
  Quote, unescape, read_char, string_on, at_close, buffer_full, open_quote, read_buffer,
}

length-unescape : (e : ℕ) → length (unescape e) ≤ 2
unfolding unescape
length-unescape e = ground arith

length-read_char : (l : Lexer) → length (read_char l).0 ≤ 2
unfolding read_char
length-read_char l = elim (Bool-cases (cur l == b'\\')) [
  | inl e ↦ rw e (length-unescape (cur (advance l)))
  | inr e ↦ rw e (omega arith)
]

not_full : (buf : Bytes) → buffer_full buf ≡ false → length buf < 4088
not_full buf h = ground arith

length-string_on :
    (q : Quote) (fuel buf : Bytes) (l : Lexer)
    → length buf < 4088
    → length (string_on q fuel buf l).0 ≤ 4089
unfolding string_on
length-string_on q [] buf l h = omega arith
length-string_on q (_ ∷ fuel) buf l h = elim (Bool-cases (cur l == 0)) [
  | inl e ↦ rw e (omega arith)
  | inr e ↦ rw e (elim (Bool-cases (at_close q l)) [
    | inl c ↦ rw c (omega arith)
    | inr c ↦ rw c (elim (Bool-cases (buffer_full (buf ++ (read_char l).0))) [
      | inl f ↦ rw f (omega (arith, length-append buf (read_char l).0, length-read_char l))
      | inr f ↦ rw f (length-string_on q fuel _ (read_char l).1 (not_full _ f))
    ])
  ])
]

-- `read_string` puts at most 4089 bytes into `buf[4096]`, whatever the source is, so that the NUL
-- behind them fits as well.
pub length-read_buffer : (l : Lexer) → length (read_buffer l).0 + 1 ≤ 4096
unfolding read_buffer
length-read_buffer l = omega (
  arith,
  length-string_on (open_quote l).0 (open_quote l).1.rest [] (open_quote l).1 (omega arith),
)
