-- ===== src/Lexer/Strings.antt =====
-- `read_string` of src/lexer.c: the four kinds of quoted literal.
pub mod Bounds
pub mod Escape
pub mod RoundTrip
pub mod Long
use lu_language.Prelude.{
  ℕ, ◌-◌, Bytes, Bool, not, ◌&&◌, [], ◌∷◌, ◌++◌, length, leb, ◌==◌, if◌then◌else◌, c_str,
}
use lu_language.Lexer.State.{Lexer, peek, cur, advance, advance_by}

-- The flags `triple`, `guillemet` and `single`, at most one of which is set; `double` is none.
pub data Quote : Type 0 where
  triple guillemet single double : Quote

abbrev pub at_triple : Lexer → Bool
at_triple l = cur l == b'"' && peek l 1 == b'"' && peek l 2 == b'"'

-- The two bytes of « and of » in UTF-8.
abbrev pub at_open_guillemet : Lexer → Bool
at_open_guillemet l = cur l == 0xc2 && peek l 1 == 0xab

abbrev pub at_close_guillemet : Lexer → Bool
at_close_guillemet l = cur l == 0xc2 && peek l 1 == 0xbb

-- The opening delimiter.
unfoldable pub open_quote : Lexer → Quote × Lexer
open_quote l =
    if at_triple l
    then (triple, advance_by 3 l)
    else if at_open_guillemet l
    then (guillemet, advance_by 2 l)
    else if cur l == b'\''
    then (single, advance l)
    else if cur l == b'"'
    then (double, advance l)
    else (double, l)

-- The test for the closing delimiter, and the number of its bytes.
unfoldable pub at_close : Quote → Lexer → Bool
at_close triple l = at_triple l
at_close guillemet l = at_close_guillemet l
at_close single l = cur l == b'\''
at_close double l = cur l == b'"'

abbrev pub close_width : Quote → ℕ
close_width triple = 3
close_width guillemet = 2
close_width single = 1
close_width double = 1

-- What `\e` puts into the buffer; `e` is NUL at the end of the source.
unfoldable pub unescape : ℕ → Bytes
unescape e =
    if e == b'n'
    then b'\n' ∷ []
    else if e == b't'
    then b'\t' ∷ []
    else if e == b'r'
    then b'\r' ∷ []
    else if e == b'\\'
    then b'\\' ∷ []
    else if e == b'"'
    then b'"' ∷ []
    else if e == b'\''
    then b'\'' ∷ []
    else if e == b'0'
    then 0 ∷ []
    else if e == 0
    then b'\\' ∷ []
    else b'\\' ∷ e ∷ []

-- The bytes that one round of the loop adds to the buffer, and the lexer behind them.
unfoldable pub read_char : Lexer → Bytes × Lexer
read_char l =
    if cur l == b'\\'
    then (unescape (cur (advance l)), advance (advance l))
    else (cur l ∷ [], advance l)

-- `sizeof(buf) - 8`
abbrev pub buffer_full : Bytes → Bool
buffer_full buf = leb (4096 - 8) (length buf)

-- The loop. Each round passes a byte at least, so the text left is fuel enough.
unfoldable pub string_on : Quote → Bytes → Bytes → Lexer → Bytes × Lexer
string_on q [] buf l = (buf, l)
string_on q (_ ∷ fuel) buf l =
    let buf' = buf ++ (read_char l).0 in
    let l' = (read_char l).1 in
    let onward = string_on q fuel buf' l' in
    if cur l == 0
    then (buf, l)
    else if at_close q l
    then (buf, advance_by (close_width q) l)
    else if buffer_full buf'
    then (buf', l')
    else onward

-- The buffer before `lu_strdup` cuts it at its first NUL.
unfoldable pub read_buffer : Lexer → Bytes × Lexer
read_buffer l = let (q, m) = open_quote l in string_on q m.rest [] m

unfoldable pub read_string : Lexer → Bytes × Lexer
read_string l = let (buf, m) = read_buffer l in (c_str buf, m)
