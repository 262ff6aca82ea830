-- ===== src/Lexer/Numbers.antt =====
-- `read_number` of src/lexer.c.
use lu_language.Prelude.{
  ℕ, Bytes, Bool, true, false, not, ◌&&◌, ◌||◌, [], ◌∷◌, leb, ◌==◌, if◌then◌else◌, isdigit,
  isxdigit,
}
use lu_language.Lexer.State.{Lexer, peek, cur, advance, advance_by, skip_while, text_between}
use lu_language.Lexer.Token.{TokenType, tok_float_lit, tok_int_lit}

abbrev pub is_hex_byte : ℕ → Bool
is_hex_byte c = not (c == 0) && isxdigit c

abbrev pub is_binary_byte : ℕ → Bool
is_binary_byte c = c == b'0' || c == b'1'

abbrev pub is_octal_byte : ℕ → Bool
is_octal_byte c = leb b'0' c && leb c b'7'

abbrev pub is_digit_byte : ℕ → Bool
is_digit_byte c = not (c == 0) && isdigit c

-- The digits and the one dot of a decimal literal. The flag is `seen_dot`, which `is_float` follows.
unfoldable pub decimal_on : Bytes → Bool → Lexer → Bool × Lexer
decimal_on [] seen_dot l = (seen_dot, l)
decimal_on (_ ∷ fuel) seen_dot l =
    let onward = decimal_on fuel (seen_dot || cur l == b'.') (advance l) in
    if not (cur l == 0) && (isdigit (cur l) || cur l == b'.')
    then if cur l == b'.' && (seen_dot || not (isdigit (peek l 1))) then (seen_dot, l) else onward
    else (seen_dot, l)

abbrev pub is_sign : ℕ → Bool
is_sign c = c == b'+' || c == b'-'

unfoldable pub at_exponent : Lexer → Bool
at_exponent l =
    (cur l == b'e' || cur l == b'E')
    && (isdigit (peek l 1) || is_sign (peek l 1) && isdigit (peek l 2))

unfoldable pub skip_sign : Lexer → Lexer
skip_sign l = if is_sign (cur l) then advance l else l

-- An exponent, where one stands.
unfoldable pub read_exponent : Bool × Lexer → Bool × Lexer
read_exponent (is_float, l) =
    if at_exponent l
    then (true, skip_while is_digit_byte (skip_sign (advance l)))
    else (is_float, l)

-- `cur(l) == '0' && (peek(l, 1) == lower || peek(l, 1) == upper)`
unfoldable pub at_radix : ℕ → ℕ → Lexer → Bool
at_radix lower upper l = cur l == b'0' && (peek l 1 == lower || peek l 1 == upper)

-- `is_float`, and the lexer behind the literal.
unfoldable pub scan_number : Lexer → Bool × Lexer
scan_number l =
    if at_radix b'x' b'X' l
    then (false, skip_while is_hex_byte (advance_by 2 l))
    else if at_radix b'b' b'B' l
    then (false, skip_while is_binary_byte (advance_by 2 l))
    else if at_radix b'o' b'O' l
    then (false, skip_while is_octal_byte (advance_by 2 l))
    else read_exponent (decimal_on l.rest false l)

-- The optional suffix of a float, which is passed and not stored.
unfoldable pub skip_suffix : Bool → Lexer → Lexer
skip_suffix is_float l = if is_float && (cur l == b'f' || cur l == b'F') then advance l else l

abbrev pub number_type : Bool → TokenType
number_type is_float = if is_float then tok_float_lit else tok_int_lit

unfoldable pub read_number : Lexer → TokenType × Bytes × Lexer
read_number l =
    let (is_float, m) = scan_number l in
    (number_type is_float, text_between l m, skip_suffix is_float m)
