-- ===== src/Lexer/Tests.antt =====
-- Runs of the lexer at fixed inputs.
use lu_language.Prelude.{
  decimal_digits, Bytes, ◌+◌, ◌++◌, ◌≤◌, inl, length, replicate, c_str, arith, List, [], ◌∷◌,
  Option, some, none, ◌≡◌, refl, codes, map,
}
use lu_language.Lexer.Token.{
  Token, TokenType, tok_ident, tok_int_lit, tok_float_lit, tok_eof, tok_larrow, tok_newline,
  tok_str_lit, tok_unknown, tok_if, tok_block_id, tok_block_end, tok_func_call, tok_slash,
  tok_type_int, tok_dot,
}
use lu_language.Lexer.Run.{run}
use lu_language.Lexer.Position.Tokens.{Placed, tokenize-Placed}
use lu_language.Lexer.State.{cur, Lexer, lexer_new}
use lu_language.Lexer.Strings.{read_buffer, read_string, single, double}
use lu_language.Lexer.Strings.Bounds.{length-read_buffer}
use lu_language.Lexer.Strings.Escape.{ReadsTo, single_quote, double_quote, escape_byte, quoted}
use lu_language.Lexer.Strings.Long.{read_buffer_long}
use lu_language.Lexer.Strings.RoundTrip.{read_string-quoted}
use mathlib.Core.List.{Memᴰ}
use lu_language.Lexer.Action.{emit}
use lu_language.Lexer.Rules.Operators.{Op2, Op3, ops2, ops3}
use lu_language.Lexer.Decimal.{block_id-decimal_digits}
use lu_language.Lexer.Rules.Text.{block_id}
use lu_language.Lexer.Tokenizer.{tokenize}

abbrev Shown : Type 0
Shown = TokenType × Bytes

abbrev shown : Option (List Token) → List Shown
shown none = []
shown (some ts) = map (λ (t : Token). let s : Shown = (t.type, t.value) in s) ts

test_a :
    shown (run (codes "int x1<-0x1F/2.5e3f // c\n"))
    ≡ (tok_type_int, codes "int")
      ∷ (tok_ident, codes "x1")
      ∷ (tok_larrow, codes "<-")
      ∷ (tok_int_lit, codes "0x1F")
      ∷ (tok_slash, codes "/")
      ∷ (tok_float_lit, codes "2.5e3")
      ∷ (tok_newline, codes "\n")
      ∷ (tok_eof, [])
      ∷ []
unfolding run
test_a = refl

test_b :
    shown (run (codes "#q007:end #quit func(a(b)c) $x $If/ 'a\\tb'"))
    ≡ (tok_block_end, codes "7")
      ∷ (tok_block_id, codes "0")
      ∷ (tok_func_call, codes "a(b")
      ∷ (tok_ident, codes "c")
      ∷ (TokenType.tok_rparen, codes ")")
      ∷ (tok_unknown, codes "$")
      ∷ (tok_if, codes "If/")
      ∷ (tok_str_lit, codes "a\tb")
      ∷ (tok_eof, [])
      ∷ []
unfolding run
test_b = refl

test_c :
    shown (run (codes "1.2.3 /* x */ \"q\\\"\\0z\""))
    ≡ (tok_float_lit, codes "1.2")
      ∷ (tok_dot, codes ".")
      ∷ (tok_int_lit, codes "3")
      ∷ (tok_str_lit, codes "q\"")
      ∷ (tok_eof, [])
      ∷ []
unfolding run
test_c = refl

tokenize-Placed_example :
    (ts : List Token) × (tokenize (codes "int x\n  += 'a'") ≡ some ts)
    × Placed (c_str (codes "int x\n  += 'a'")) 0 ts
tokenize-Placed_example = tokenize-Placed (codes "int x\n  += 'a'")

length-read_buffer_example : length (read_buffer (lexer_new (codes "'a\\'b' c"))).0 + 1 ≤ 4096
length-read_buffer_example = length-read_buffer (lexer_new (codes "'a\\'b' c"))

read_string-quoted_example :
    ReadsTo
      (read_string (lexer_new (codes "\"a\\n\\\"\\\\b\"+c")))
      (c_str (codes "a\n\"\\b"))
      (codes "+c")
unfolding lexer_new c_str escape_byte
read_string-quoted_example =
    read_string-quoted double (codes "a\n\"\\b") (codes "+c")
      (lexer_new (codes "\"a\\n\\\"\\\\b\"+c")) double_quote (omega arith) (inl (λ e. cc)) refl

abbrev long_text : Bytes
long_text = replicate 4088 b'a'

read_buffer_long_example :
    ReadsTo
      (read_buffer (record {
        rest = quoted single (long_text ++ codes "bc") ++ codes ";";
        pos = 0;
        line = 1;
        col = 1;
      }))
      long_text
      (codes "bc';")
unfolding escape_byte
read_buffer_long_example =
    read_buffer_long single long_text (codes "bc") (codes ";")
      (record {
        rest = quoted single (long_text ++ codes "bc") ++ codes ";";
        pos = 0;
        line = 1;
        col = 1;
      })
      single_quote refl refl

abbrev at_brace : Lexer
at_brace = lexer_new (codes "{26,16};")

abbrev left_arrow : Op2
left_arrow = record { first = b'<'; second = b'-'; type = tok_larrow }

abbrev shift_eq : Op3
shift_eq = record { first = b'<'; second = b'<'; third = b'='; type = TokenType.tok_lshift_eq }

left_arrow-Mem : Memᴰ left_arrow ops2
unfolding ops2
left_arrow-Mem = Memᴰ.tail (Memᴰ.head refl)

shift_eq-Mem : Memᴰ shift_eq ops3
unfolding ops3
shift_eq-Mem = Memᴰ.tail (Memᴰ.head refl)

block_id-decimal_digits_example :
    block_id (codes "q407") (lexer_new (codes " x"))
    ≡ emit TokenType.tok_block_id (codes "407") (lexer_new (codes " x"))
unfolding decimal_digits lexer_new cur c_str
block_id-decimal_digits_example =
    block_id-decimal_digits 407 (lexer_new (codes " x")) (omega arith) refl
