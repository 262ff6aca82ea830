-- ===== src/Lexer/Strings/RoundTrip.antt =====
-- `read_string` of src/lexer.c on a text that was quoted with its own escapes.
use lu_language.Prelude.{
  ℕ, suc, ◌+◌, ◌≤◌, ◌<◌, Bytes, true, false, [], ◌∷◌, ◌++◌, append_assoc, append-nil, length,
  length-append, get_or, ◌≡◌, ◌≢◌, refl, sym, ap, ◌∙◌, ◌⊎◌, inl, inr, ◌==◌, c_str, arith,
}
use lu_language.Lexer.Scan.{advance-rest, cur_cons}
use lu_language.Lexer.State.{Lexer, cur, peek, advance, advance_by}
use lu_language.Lexer.Strings.{
  at_triple, Quote, read_char, string_on, at_close, close_width, buffer_full, open_quote,
  read_buffer, read_string,
}
use lu_language.Lexer.Strings.Escape.{
  IsByteQuote, single_quote, double_quote, escape_byte, escape, delimiter, ReadsByte,
  escape_byte-ReadsByte, length-escape_byte, ReadsTo, quoted,
}

at_close-delimiter :
    (q : Quote) (l : Lexer) (rest : Bytes)
    → IsByteQuote q
    → l.rest ≡ delimiter q ∷ rest
    → ((cur l == 0) ≡ false) × (at_close q l ≡ true) × ((advance_by (close_width q) l).rest ≡ rest)
at_close-delimiter q l rest single_quote e =
    (rw (cur_cons l e), unfold at_close in rw (cur_cons l e), unfold advance_by in advance-rest l e)
at_close-delimiter q l rest double_quote e =
    (rw (cur_cons l e), unfold at_close in rw (cur_cons l e), unfold advance_by in advance-rest l e)

pub room_left :
    (buf : Bytes) (c : ℕ) (n : ℕ)
    → length buf + suc n < 4088
    → buffer_full (buf ++ (c ∷ [])) ≡ false
room_left buf c n h = ground (arith, length-append buf (c ∷ []))

string_on-close :
    (q : Quote) (x : ℕ) (fuel buf : Bytes) (l : Lexer)
    → (cur l == 0) ≡ false
    → at_close q l ≡ true
    → string_on q (x ∷ fuel) buf l ≡ (buf, advance_by (close_width q) l)
unfolding string_on
string_on-close q x fuel buf l more closed = rw (more, closed)

pub string_on-more :
    (q : Quote) (x : ℕ) (fuel buf : Bytes) (l : Lexer) (c : ℕ) {tail : Bytes}
    → ReadsByte q l c tail
    → buffer_full (buf ++ (c ∷ [])) ≡ false
    → string_on q (x ∷ fuel) buf l ≡ string_on q fuel (buf ++ (c ∷ [])) (read_char l).1
unfolding string_on
string_on-more q x fuel buf l c r room = rw (r.more, r.inside, r.value, room)

string_on-escape :
    (q : Quote) (s rest fuel buf : Bytes) (l : Lexer)
    → IsByteQuote q
    → l.rest ≡ escape s ++ (delimiter q ∷ rest)
    → length l.rest ≤ length fuel
    → length buf + length s < 4088
    → ReadsTo (string_on q fuel buf l) (buf ++ s) rest
string_on-escape q s rest [] buf l b e f h =
    absurd (omega (arith, ap length e, length-append (escape s) (delimiter q ∷ rest)))
string_on-escape q [] rest (x ∷ fuel) buf l b e f h =
    let (more, closed, behind) = at_close-delimiter q l rest b e in
    rw (string_on-close q x fuel buf l more closed)
      (record { value = sym (append-nil buf); left = behind })
string_on-escape q (c ∷ cs) rest (x ∷ fuel) buf l b e f h =
    let e' = e ∙ append_assoc (escape_byte c) (escape cs) (delimiter q ∷ rest) in
    let r = escape_byte-ReadsByte q l c (escape cs ++ (delimiter q ∷ rest)) b e' in
    rw
      (
        string_on-more q x fuel buf l c r (room_left buf c (length cs) (omega arith)),
        ← append_assoc buf (c ∷ []) cs,
      )
      (string_on-escape q cs rest fuel (buf ++ (c ∷ [])) (read_char l).1 b r.left
        (omega (
          arith,
          ap length e',
          ap length r.left,
          length-escape_byte c,
          length-append (escape_byte c) (escape cs ++ (delimiter q ∷ rest)),
        ))
        (omega (arith, length-append buf (c ∷ []))))

-- An empty literal in double quotes with a quote behind it would open a triple-quoted one.
abbrev pub NotTriple : Bytes → Bytes → Type 0
NotTriple s rest = (s ≢ []) ⊎ (get_or rest 0 0 ≢ b'"')

escape_byte-head : (c : ℕ) (tail : Bytes) → get_or (escape_byte c ++ tail) 0 0 ≢ b'"'
unfolding escape_byte
escape_byte-head c tail = ground arith

not_triple :
    (s rest : Bytes) (l : Lexer)
    → NotTriple s rest
    → l.rest ≡ b'"' ∷ (escape s ++ (b'"' ∷ rest))
    → at_triple l ≡ false
unfolding peek
not_triple [] rest l (inl n) e = absurd (n refl)
not_triple [] rest l (inr n) e = rw (cur_cons l e, e) (ground arith)
not_triple (c ∷ cs) rest l n e =
    rw (cur_cons l e, e)
      (ground (
        arith,
        append_assoc (escape_byte c) (escape cs) (b'"' ∷ rest),
        escape_byte-head c (escape cs ++ (b'"' ∷ rest)),
      ))

pub open_quote-quoted :
    (q : Quote) (s rest : Bytes) (l : Lexer)
    → IsByteQuote q
    → NotTriple s rest
    → l.rest ≡ delimiter q ∷ (escape s ++ (delimiter q ∷ rest))
    → open_quote l ≡ (q, advance l)
unfolding open_quote
open_quote-quoted q s rest l single_quote n e = rw (cur_cons l e)
open_quote-quoted q s rest l double_quote n e = rw (not_triple s rest l n e, cur_cons l e)

-- The buffer that `read_string` fills from a quoted text is the text, if it has less than 4088 bytes.
read_buffer-quoted :
    (q : Quote) (s rest : Bytes) (l : Lexer)
    → IsByteQuote q
    → length s < 4088
    → NotTriple s rest
    → l.rest ≡ quoted q s ++ rest
    → ReadsTo (read_buffer l) s rest
unfolding read_buffer
read_buffer-quoted q s rest l b h n e =
    let e' : l.rest ≡ delimiter q ∷ (escape s ++ (delimiter q ∷ rest)) =
      e ∙ ap (◌∷◌ (delimiter q)) (append_assoc (escape s) (delimiter q ∷ []) rest) in
    rw (open_quote-quoted q s rest l b n e') (
      string_on-escape q s rest (advance l).rest [] (advance l) b (advance-rest l e') (omega arith)
        (omega arith))

-- A text of less than 4088 bytes that is written between single or double quotes with the escapes
-- of `read_string` is read back up to its first NUL byte, and the lexer then stands behind the
-- closing quote. This holds if the text is not empty or no double quote follows the closing quote,
-- since an empty text in double quotes with a third behind it opens a triple quote.
pub read_string-quoted :
    (q : Quote) (s rest : Bytes) (l : Lexer)
    → IsByteQuote q
    → length s < 4088
    → NotTriple s rest
    → l.rest ≡ quoted q s ++ rest
    → ReadsTo (read_string l) (c_str s) rest
unfolding read_string
read_string-quoted q s rest l b h n e =
    let r = read_buffer-quoted q s rest l b h n e in
    record { value = ap c_str r.value; left = r.left }
