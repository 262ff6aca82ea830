-- ===== src/Lexer/Reach/Readers.antt =====
-- The readers of payloads, strings and numbers, src/lexer.c, as sequences of `advance`.
use lu_language.Prelude.{
  ℕ, Bytes, Bool, true, false, not, ◌&&◌, ◌||◌, [], ◌∷◌, ◌++◌, ◌≡◌, refl, if◌then◌else◌, ◌==◌,
  isdigit, arith,
}
use lu_language.Lexer.Numbers.{
  decimal_on, at_exponent, skip_sign, is_sign, read_exponent, at_radix, scan_number, skip_suffix,
  read_number,
}
use lu_language.Lexer.Reach.{
  Reaches, here, next, Reaches-trans, Reaches-advance_by, Reaches-skip_while, Reaches-skip_byte,
  Reaches-if, skip_while-progress, advance_end,
}
use lu_language.Lexer.State.{
  Lexer, cur, peek, advance, advance_by, payload_on, read_payload, is_word_byte, read_word,
  read_brace_payload, read_cor,
}
use lu_language.Lexer.Strings.{
  Quote, at_close, close_width, read_char, string_on, open_quote, read_buffer, read_string,
  buffer_full, at_triple, at_open_guillemet,
}

abbrev pub Behind : {A : Type 0} → Lexer → A × Lexer → Type 0
Behind l r = Reaches l r.1

pub Behind-if :
    {A : Type 0} {l : Lexer} (t : Bool) (r s : A × Lexer)
    → Behind l r
    → (t ≡ false → Behind l s)
    → Behind l (if t then r else s)
Behind-if true r s p q = p
Behind-if false r s p q = q refl

Behind-split :
    {A : Type 0} {l : Lexer} (t : Bool) (r s : A × Lexer)
    → (t ≡ true → Behind l r)
    → (t ≡ false → Behind l s)
    → Behind l (if t then r else s)
Behind-split true r s p q = p refl
Behind-split false r s p q = q refl

pub payload_on-Behind :
    (size stop : ℕ) (fuel buf : Bytes) (l : Lexer) → Behind l (payload_on size stop fuel buf l)
unfolding payload_on
payload_on-Behind size stop [] buf l = here
payload_on-Behind size stop (_ ∷ fuel) buf l =
    Behind-if (not (cur l == 0) && not (cur l == stop)) _ _
      (next (payload_on-Behind size stop fuel _ (advance l))) (λ _. here)

pub read_payload-Behind : (size stop : ℕ) (l : Lexer) → Behind l (read_payload size stop l)
unfolding read_payload
read_payload-Behind size stop l =
    Reaches-trans (payload_on-Behind size stop l.rest [] l) (Reaches-skip_byte stop _)

pub read_brace_payload-Behind : (l : Lexer) → Behind (advance l) (read_brace_payload l)
unfolding read_brace_payload
read_brace_payload-Behind l = read_payload-Behind 512 b'}' (advance l)

pub read_cor-Behind : (l : Lexer) → Behind (advance l) (read_cor l)
unfolding read_cor
read_cor-Behind l = read_payload-Behind 512 b'}' (advance l)

pub read_word-Behind : (l : Lexer) → Behind l (read_word l)
unfolding read_word
read_word-Behind l = Reaches-skip_while is_word_byte l

pub read_word-progress :
    (l : Lexer) → is_word_byte (cur l) ≡ true → Behind (advance l) (read_word l)
unfolding read_word
read_word-progress l h = skip_while-progress is_word_byte l h

pub read_char-Behind : (l : Lexer) → Behind (advance l) (read_char l)
unfolding read_char
read_char-Behind l = Behind-if (cur l == b'\\') _ _ (next here) (λ _. here)

pub string_on-Behind :
    (q : Quote) (fuel buf : Bytes) (l : Lexer) → Behind l (string_on q fuel buf l)
unfolding string_on
string_on-Behind q [] buf l = here
string_on-Behind q (_ ∷ fuel) buf l =
    let read = next (read_char-Behind l) in
    Behind-if (cur l == 0) _ _ here (λ _.
      Behind-if (at_close q l) _ _ (Reaches-advance_by (close_width q) l) (λ _.
        Behind-if (buffer_full (buf ++ (read_char l).0)) _ _ read
          (λ _. Reaches-trans read (string_on-Behind q fuel _ (read_char l).1))))

pub open_quote-Behind : (l : Lexer) → Behind l (open_quote l)
unfolding open_quote
open_quote-Behind l = Behind-if (at_triple l) _ _ (Reaches-advance_by 3 l) (λ _.
    Behind-if (at_open_guillemet l) _ _ (Reaches-advance_by 2 l) (λ _.
      Behind-if (cur l == b'\'') _ _ (next here)
        (λ _. Behind-if (cur l == b'"') _ _ (next here) (λ _. here))))

pub read_string-Behind : (l : Lexer) → Behind l (read_string l)
unfolding read_string read_buffer
read_string-Behind l =
    Reaches-trans (open_quote-Behind l)
      (string_on-Behind _ (open_quote l).1.rest [] (open_quote l).1)

-- At an opening delimiter the delimiter is passed.
pub read_string-progress :
    (l : Lexer)
    → (cur l == 0xc2 && peek l 1 == 0xab || cur l == b'"' || cur l == b'\'') ≡ true
    → Behind (advance l) (read_string l)
unfolding read_string read_buffer
read_string-progress l h =
    Reaches-trans opened (string_on-Behind _ (open_quote l).1.rest [] (open_quote l).1)
  where
    opened : Behind (advance l) (open_quote l)
    opened =
        unfold open_quote advance_by in
        Behind-if (at_triple l) _ _ (Reaches-advance_by 2 (advance l)) (λ _.
          Behind-if (at_open_guillemet l) _ _ (Reaches-advance_by 1 (advance l)) (λ p.
            Behind-if (cur l == b'\'') _ _ here
              (λ q. Behind-if (cur l == b'"') _ _ here (λ r. absurd (ground arith)))))

pub decimal_on-Behind :
    (fuel : Bytes) (seen_dot : Bool) (l : Lexer) → Behind l (decimal_on fuel seen_dot l)
unfolding decimal_on
decimal_on-Behind [] seen_dot l = here
decimal_on-Behind (_ ∷ fuel) seen_dot l =
    Behind-if (not (cur l == 0) && (isdigit (cur l) || cur l == b'.')) _ _
      (Behind-if (cur l == b'.' && (seen_dot || not (isdigit (peek l 1)))) _ _ here
        (λ _. next (decimal_on-Behind fuel _ (advance l))))
      (λ _. here)

skip_sign-Reaches : (l : Lexer) → Reaches l (skip_sign l)
unfolding skip_sign
skip_sign-Reaches l = Reaches-if (is_sign (cur l)) _ _ (next here) here

skip_suffix-Reaches : (b : Bool) (l : Lexer) → Reaches l (skip_suffix b l)
unfolding skip_suffix
skip_suffix-Reaches b l = Reaches-if (b && (cur l == b'f' || cur l == b'F')) _ _ (next here) here

pub read_exponent-Behind : (b : Bool) (l : Lexer) → Behind l (read_exponent (b, l))
unfolding read_exponent
read_exponent-Behind b l =
    Behind-if (at_exponent l) _ _
      (next (Reaches-trans (skip_sign-Reaches (advance l)) (Reaches-skip_while _ _))) (λ _. here)

-- At a digit the digit is passed.
decimal_on-progress :
    (l : Lexer) → isdigit (cur l) ≡ true → Behind (advance l) (decimal_on l.rest false l)
decimal_on-progress l h = go l.rest refl
  where
    go : (fuel : Bytes) → l.rest ≡ fuel → Behind (advance l) (decimal_on fuel false l)
    go [] e = unfold decimal_on in rw (advance_end l e) here
    go (_ ∷ fuel) e =
        unfold decimal_on in
        Behind-split (not (cur l == 0) && (isdigit (cur l) || cur l == b'.')) _ _
          (λ _.
            Behind-split (cur l == b'.' && (false || not (isdigit (peek l 1)))) _ _
              (λ p. absurd (unfold isdigit in ground arith))
              (λ _. decimal_on-Behind fuel _ (advance l)))
          (λ p. absurd (unfold isdigit in ground arith))

scan_number-progress : (l : Lexer) → isdigit (cur l) ≡ true → Behind (advance l) (scan_number l)
unfolding scan_number advance_by
scan_number-progress l h =
    Behind-if (at_radix b'x' b'X' l) _ _ (next (Reaches-skip_while _ _)) (λ _.
      Behind-if (at_radix b'b' b'B' l) _ _ (next (Reaches-skip_while _ _)) (λ _.
        Behind-if (at_radix b'o' b'O' l) _ _ (next (Reaches-skip_while _ _))
          (λ _. Reaches-trans (decimal_on-progress l h) (read_exponent-Behind _ _))))

pub read_number-progress :
    (l : Lexer) → isdigit (cur l) ≡ true → Reaches (advance l) (read_number l).2
unfolding read_number
read_number-progress l h =
    Reaches-trans (scan_number-progress l h)
      (skip_suffix-Reaches (scan_number l).0 (scan_number l).1)
