-- ===== src/Lexer/Strings/Escape.antt =====
-- How a text is written in a literal, and what one round of `read_string`'s loop, src/lexer.c,
-- reads of it.
use lu_language.Prelude.{
  ℕ, ◌<◌, Bytes, true, false, ◌||◌, [], ◌∷◌, ◌++◌, append_assoc, length, ◌≡◌, ◌≢◌, refl, sym, ap,
  ◌∙◌, inl, inr, Bool-cases, if◌then◌else◌, ◌==◌, arith,
}
use lu_language.Lexer.Scan.{advance-rest, cur_cons}
use lu_language.Lexer.State.{Lexer, cur, advance}
use lu_language.Lexer.Strings.{Quote, single, double, unescape, read_char, at_close}

-- One byte of a literal, by the escapes that `read_string` knows.
unfoldable pub escape_byte : ℕ → Bytes
escape_byte c =
    if c == b'\n'
    then b'\\' ∷ b'n' ∷ []
    else if c == b'\t'
    then b'\\' ∷ b't' ∷ []
    else if c == b'\r'
    then b'\\' ∷ b'r' ∷ []
    else if c == b'\\' || c == b'"' || c == b'\''
    then b'\\' ∷ c ∷ []
    else if c == 0
    then b'\\' ∷ b'0' ∷ []
    else c ∷ []

abbrev pub escape : Bytes → Bytes
escape [] = []
escape (c ∷ cs) = escape_byte c ++ escape cs

-- The two delimiters of one byte.
abbrev pub delimiter : Quote → ℕ
delimiter single = b'\''
delimiter _ = b'"'

pub data IsByteQuote : Quote → Type 0 where
  single_quote : IsByteQuote single
  double_quote : IsByteQuote double

-- What one round of the loop does at one escaped byte.
pub record ReadsByte (q : Quote) (l : Lexer) (c : ℕ) (tail : Bytes) : Type 0 where
  pub more : (cur l == 0) ≡ false
  pub inside : at_close q l ≡ false
  pub value : (read_char l).0 ≡ c ∷ []
  pub left : (read_char l).1.rest ≡ tail

not_close :
    (q : Quote) (l : Lexer) → IsByteQuote q → cur l ≢ b'"' → cur l ≢ b'\'' → at_close q l ≡ false
unfolding at_close
not_close q l single_quote d t = ground arith
not_close q l double_quote d t = ground arith

plain_byte :
    (q : Quote) (l : Lexer) (c : ℕ) (tail : Bytes)
    → IsByteQuote q
    → l.rest ≡ c ∷ tail
    → c ≢ 0
    → c ≢ b'\\'
    → c ≢ b'"'
    → c ≢ b'\''
    → ReadsByte q l c tail
plain_byte q l c tail b e z s d t =
    let at = cur_cons l e in
    let off : (cur l == b'\\') ≡ false = rw at (ground arith) in
    record {
      more = rw at (ground arith);
      inside = not_close q l b (rw at d) (rw at t);
      value = unfold read_char in rw off (rw at);
      left = unfold read_char in rw off (advance-rest l e);
    }

escaped_byte :
    (q : Quote) (l : Lexer) (c e : ℕ) (tail : Bytes)
    → IsByteQuote q
    → l.rest ≡ b'\\' ∷ e ∷ tail
    → unescape e ≡ c ∷ []
    → ReadsByte q l c tail
escaped_byte q l c e tail b at u =
    let on : (cur l == b'\\') ≡ true = rw (cur_cons l at) in
    let second = advance-rest l at in
    record {
      more = rw (cur_cons l at);
      inside =
          not_close q l b (rw (cur_cons l at) (ground arith)) (rw (cur_cons l at) (ground arith));
      value = unfold read_char in rw on (rw (cur_cons (advance l) second) u);
      left = unfold read_char in rw on (advance-rest (advance l) second);
    }

-- `escape_byte` undoes one round of the loop.
pub escape_byte-ReadsByte :
    (q : Quote) (l : Lexer) (c : ℕ) (tail : Bytes)
    → IsByteQuote q
    → l.rest ≡ escape_byte c ++ tail
    → ReadsByte q l c tail
unfolding escape_byte unescape
escape_byte-ReadsByte q l c tail b e = elim (Bool-cases (c == b'\n')) [
  | inl h ↦ escaped_byte q l c b'n' tail b (rw h at e) (ground arith)
  | inr n ↦ elim (Bool-cases (c == b'\t')) [
    | inl h ↦ escaped_byte q l c b't' tail b (rw (n, h) at e) (ground arith)
    | inr t ↦ elim (Bool-cases (c == b'\r')) [
      | inl h ↦ escaped_byte q l c b'r' tail b (rw (n, t, h) at e) (ground arith)
      | inr r ↦ elim (Bool-cases (c == b'\\' || c == b'"' || c == b'\'')) [
        | inl h ↦ escaped_byte q l c c tail b (rw (n, t, r, h) at e) (ground arith)
        | inr h ↦ elim (Bool-cases (c == 0)) [
          | inl z ↦ escaped_byte q l c b'0' tail b (rw (n, t, r, h, z) at e) (ground arith)
          | inr z ↦
              plain_byte q l c tail b (rw (n, t, r, h, z) at e) (ground arith) (ground arith)
                (ground arith) (ground arith)
        ]
      ]
    ]
  ]
]

pub length-escape_byte : (c : ℕ) → 0 < length (escape_byte c)
unfolding escape_byte
length-escape_byte c = ground arith

pub escape-append : (s t : Bytes) → escape (s ++ t) ≡ escape s ++ escape t
escape-append [] t = refl
escape-append (c ∷ cs) t =
    ap (λ r. escape_byte c ++ r) (escape-append cs t)
    ∙ sym (append_assoc (escape_byte c) (escape cs) (escape t))

-- A read that ends with the value `v` in front of `rest`.
pub record ReadsTo (r : Bytes × Lexer) (v rest : Bytes) : Type 0 where
  pub value : r.0 ≡ v
  pub left : r.1.rest ≡ rest

-- The text between its delimiters.
abbrev pub quoted : Quote → Bytes → Bytes
quoted q s = delimiter q ∷ (escape s ++ (delimiter q ∷ []))
