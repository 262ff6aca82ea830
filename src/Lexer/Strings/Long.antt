-- ===== src/Lexer/Strings/Long.antt =====
-- Literals that are longer than the buffer of `read_string`, src/lexer.c.
use lu_language.Prelude.{
  ℕ, ◌+◌, ◌≤◌, ◌<◌, Bytes, true, [], ◌∷◌, ◌++◌, append_assoc, length, length-append, ◌≡◌, ◌≢◌, refl,
  ap, ◌∙◌, inl, arith,
}
use lu_language.Lexer.Scan.{advance-rest}
use lu_language.Lexer.State.{Lexer, advance}
use lu_language.Lexer.Strings.{Quote, read_char, string_on, buffer_full, read_buffer}
use lu_language.Lexer.Strings.Escape.{
  IsByteQuote, escape_byte, escape, delimiter, ReadsByte, escape_byte-ReadsByte, length-escape_byte,
  escape-append, ReadsTo, quoted,
}
use lu_language.Lexer.Strings.RoundTrip.{string_on-more, room_left, open_quote-quoted}

string_on-full :
    (q : Quote) (x : ℕ) (fuel buf : Bytes) (l : Lexer) (c : ℕ) {tail : Bytes}
    → ReadsByte q l c tail
    → buffer_full (buf ++ (c ∷ [])) ≡ true
    → string_on q (x ∷ fuel) buf l ≡ (buf ++ (c ∷ []), (read_char l).1)
unfolding string_on
string_on-full q x fuel buf l c r full = rw (r.more, r.inside, r.value, full)

string_on-fills :
    (q : Quote) (s tail fuel buf : Bytes) (l : Lexer)
    → IsByteQuote q
    → l.rest ≡ escape s ++ tail
    → length l.rest ≤ length fuel
    → length buf < 4088
    → length buf + length s ≡ 4088
    → ReadsTo (string_on q fuel buf l) (buf ++ s) tail
string_on-fills q [] tail fuel buf l b e f h g = absurd (omega arith)
string_on-fills q (c ∷ cs) tail [] buf l b e f h g = absurd (
    omega (
      arith,
      ap length e,
      length-append (escape (c ∷ cs)) tail,
      length-append (escape_byte c) (escape cs),
      length-escape_byte c,
    ))
string_on-fills q (c ∷ []) tail (x ∷ fuel) buf l b e f h g =
    let r = escape_byte-ReadsByte q l c tail b (e ∙ append_assoc (escape_byte c) [] tail) in
    rw (string_on-full q x fuel buf l c r (ground (arith, length-append buf (c ∷ []))))
      (record { value = refl; left = r.left })
string_on-fills q (c ∷ d ∷ cs) tail (x ∷ fuel) buf l b e f h g =
    let e' = e ∙ append_assoc (escape_byte c) (escape (d ∷ cs)) tail in
    let r = escape_byte-ReadsByte q l c (escape (d ∷ cs) ++ tail) b e' in
    rw
      (
        string_on-more q x fuel buf l c r (room_left buf c 0 (omega arith)),
        ← append_assoc buf (c ∷ []) (d ∷ cs),
      )
      (string_on-fills q (d ∷ cs) tail fuel (buf ++ (c ∷ [])) (read_char l).1 b r.left
        (omega (
          arith,
          ap length e',
          ap length r.left,
          length-escape_byte c,
          length-append (escape_byte c) (escape (d ∷ cs) ++ tail),
        ))
        (omega (arith, length-append buf (c ∷ []))) (omega (arith, length-append buf (c ∷ []))))

ne_nil : (s more : Bytes) → length s ≡ 4088 → s ++ more ≢ []
ne_nil [] more h e = absurd (omega arith)
ne_nil (c ∷ cs) more h e = cc

-- Of a quoted text of 4088 bytes or more only the first 4088 are read, and the lexer then stands
-- inside the literal: what is left of it is read as program text.
pub read_buffer_long :
    (q : Quote) (s more rest : Bytes) (l : Lexer)
    → IsByteQuote q
    → length s ≡ 4088
    → l.rest ≡ quoted q (s ++ more) ++ rest
    → ReadsTo (read_buffer l) s (escape more ++ (delimiter q ∷ rest))
unfolding read_buffer
read_buffer_long q s more rest l b h e =
    let whole = escape (s ++ more) in
    let e' : l.rest ≡ delimiter q ∷ (whole ++ (delimiter q ∷ rest)) =
      e ∙ ap (◌∷◌ (delimiter q)) (append_assoc whole (delimiter q ∷ []) rest) in
    let split : (advance l).rest ≡ escape s ++ (escape more ++ (delimiter q ∷ rest)) =
      advance-rest l e'
      ∙ ap (λ r. r ++ (delimiter q ∷ rest)) (escape-append s more)
      ∙ append_assoc (escape s) (escape more) (delimiter q ∷ rest) in
    rw (open_quote-quoted q (s ++ more) rest l b (inl (ne_nil s more h)) e') (
      string_on-fills q s _ (advance l).rest [] (advance l) b split (omega arith) (omega arith)
        (omega arith))
