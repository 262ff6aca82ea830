-- ===== src/Parser/Tests.antt =====
-- Runs of the expression parser of src/parser.c on small inputs.
use lu_language.Prelude.{
  ℕ, ◌≤◌, Bytes, List, sym, ◌∙◌, ◌∷◌, pos, false, [], none, some, ◌≡◌, refl, codes, String, length,
  arith, streq,
}
use lu_language.Lexer.Token.{
  tok_comma, tok_rbracket, Token, TokenType, tok_ident, tok_plus, tok_star, tok_minus, tok_eof,
  tok_int_lit, tok_lparen, tok_rparen, tok_dot, tok_question,
}
use lu_language.Ast.{nil, node_fstring}
use lu_language.Parser.Cursor.{Parser, skip_newlines}
use lu_language.Parser.Nodes.{node_new}
use lu_language.Parser.Calls.{Outer}
use lu_language.Parser.Forms.{form_of}
use lu_language.Parser.Names.{read_name}
use lu_language.Parser.Types.{consume_type, type_form}
use lu_language.Parser.Expr.{
  calls, operator_at, word_prec, parse_expr, parse_primary, parse_postfix,
}
use lu_language.Parser.Fuel.{Ends}
use lu_language.Parser.Phrase.{
  Phrase, written, push, tree, IsValid, level, of_kind, of_word, single, name, group, call, field,
  index, binary, ternary, negation, post, prefix, minus, and_more, empty,
}
use lu_language.Parser.Reads.Levels.{Stops, chain-primary, primary-postfix, post_stops}
use lu_language.Parser.Reads.Access.{name-ReadsChain}
use lu_language.Parser.Reads.Whole.{parse_expr-written}
use lu_language.Parser.Total.States.{IsFile, Within}
use lu_language.Parser.Total.Whole.{parse_expr-Within}
use lu_language.Parser.Template.{parse_fstring, parser_of}
use lu_language.Lexer.Run.{run}
use lu_language.Lexer.Tokenizer.{tokenize}
use lu_language.Parser.Pieces.{Hole, render, parts_of, AllWritten, parse_fstring-render}
use lu_language.Parser.Asm.{asm_extract_raw, asm_extract_raw-OneLine, skip_lines, skip_columns}
use lu_language.Parser.Overflow.{asm_extract_raw_long}
use lu_language.Parser.Stuck.{consume_type-stuck}
use lu_language.Parser.Casts.{cast_node, parse_primary-cast}

abbrev tok : TokenType → String → Token
tok k s = record { type = k; value = codes s; line = 1; col = 0 }

abbrev outer : Outer
outer = record {
  strtoll = λ v base. pos (length v);
  atof = λ v. 0;
  template_at = λ v line errors. (node_new node_fstring line nil, errors);
  parse_statement = λ p. none;
}

abbrev stop : Parser
stop = record { token = tok tok_eof ""; later = []; errors = 0 }

abbrev var : String → Phrase
var s = name (tok tok_ident s)

-- a - b - c
abbrev minus_minus : Phrase
minus_minus =
    binary (tok tok_minus "-") 10 (codes "-")
      (binary (tok tok_minus "-") 10 (codes "-") (var "a") (var "b")) (var "c")

-- (a + b) * -f(c, 1,).d[2] ? not e : x++
abbrev sample : Phrase
sample =
    ternary (tok tok_question "?") (tok tok_question ":")
      (binary (tok tok_star "*") 11 (codes "*")
        (group (tok tok_lparen "(") (tok tok_lparen ")")
          (binary (tok tok_plus "+") 10 (codes "+") (var "a") (var "b")))
        (prefix minus (tok tok_minus "-") (
          index (tok tok_lparen "[") (tok tok_lparen "]")
            (field false (tok tok_dot ".") (tok tok_ident "d") (
              call (tok tok_ident "f") (tok tok_lparen "(") (tok tok_lparen ")") (
                and_more (var "c") (tok tok_dot ",")
                  (and_more (single (tok tok_int_lit "1")) (tok tok_dot ",") empty))))
            (single (tok tok_int_lit "2")))))
      (negation (tok tok_ident "not") (var "e")) (post false (tok tok_plus "++") (var "x"))

sample-IsValid : IsValid sample
unfolding IsValid level operator_at word_prec streq
sample-IsValid = (
  (
    (
      refl,
      (
        (((refl, ((refl, omega arith), (refl, omega arith))), refl), omega arith),
        (
          (((((refl, (refl, (refl, tt))), omega arith), omega arith), refl), omega arith),
          omega arith,
        ),
      ),
    ),
    omega arith,
  ),
  ((refl, omega arith), (refl, omega arith)),
)

test_left : parse_expr outer 12 (written minus_minus stop) ≡ some (tree outer minus_minus, stop)
unfolding calls written streq form_of skip_newlines read_name operator_at tree
test_left = refl

stop-Stops : Stops stop
unfolding operator_at
stop-Stops = ((refl, refl), (refl, refl))

parse_expr-written_example :
    Ends (λ fuel. parse_expr outer fuel (written sample stop)) (tree outer sample, stop)
parse_expr-written_example = parse_expr-written outer sample stop sample-IsValid stop-Stops

consume_type-stuck_example :
    consume_type 9 (
      push
        (of_word (codes "fn") (tok tok_ident "fn"))
        (push (of_kind tok_lparen (tok tok_lparen "(")) (push (tok tok_int_lit "5") stop)))
    ≡ none
unfolding type_form
consume_type-stuck_example =
    consume_type-stuck 9 (tok tok_ident "fn") (tok tok_lparen "(") (push (tok tok_int_lit "5") stop)
      refl refl refl

b_read :
    Ends (λ fuel. parse_postfix outer fuel (written (var "b") stop)) (tree outer (var "b"), stop)
unfolding streq
b_read =
    let b = tok tok_ident "b" in
    let e = tree outer (var "b") in
    primary-postfix outer (var "b") (chain-primary outer (var "b") (name-ReadsChain outer b refl))
      stop (e, stop) refl (post_stops outer e stop refl)

parse_primary-cast_example :
    Ends
      (λ fuel. parse_primary outer fuel (
        push (of_kind tok_lparen (tok tok_lparen "(")) (
          push
            (of_word (codes "a") (tok tok_ident "a"))
            (push (of_kind tok_rparen (tok tok_lparen ")")) (written (var "b") stop)))))
      (cast_node 1 (codes "a") (tree outer (var "b")), stop)
unfolding streq
parse_primary-cast_example =
    parse_primary-cast outer (codes "a") (tok tok_lparen "(") (tok tok_ident "a")
      (tok tok_lparen ")") (written (var "b") stop) (tree outer (var "b")) stop refl b_read

-- f(a b, ] * )
abbrev malformed : Parser
malformed = record {
  token = tok tok_ident "f";
  later =
      tok tok_lparen "("
      ∷ tok tok_ident "a"
      ∷ tok tok_ident "b"
      ∷ tok tok_comma ","
      ∷ tok tok_rbracket "]"
      ∷ tok tok_star "*"
      ∷ tok tok_rparen ")"
      ∷ tok tok_eof ""
      ∷ [];
  errors = 0;
}

malformed-IsFile : IsFile malformed
unfolding streq
malformed-IsFile = (refl, (refl, (refl, (refl, (refl, (refl, (refl, (refl, refl))))))))

parse_expr-Within_example : Within (λ fuel. parse_expr outer fuel malformed) 7
parse_expr-Within_example = parse_expr-Within outer malformed malformed-IsFile

abbrev at_col : TokenType → String → ℕ → Token
at_col k s c = record { type = k; value = codes s; line = 1; col = c }

-- {{x}}={a + 2}!
abbrev hole : Hole
hole = record {
  inner = codes "a + 2";
  phrase =
      binary (at_col tok_plus "+" 3) 10 (codes "+") (name (at_col tok_ident "a" 1))
        (single (at_col tok_int_lit "2" 5));
  behind = codes "!";
}

test_render : render (codes "{x}=") (hole ∷ []) ≡ codes "{{x}}={a + 2}!"
test_render = refl

abbrev hole_tokens : List Token
hole_tokens =
    at_col tok_ident "a" 1
    ∷ at_col tok_plus "+" 3
    ∷ at_col tok_int_lit "2" 5
    ∷ at_col tok_eof "" 6
    ∷ []

abbrev hole_end : Parser
hole_end = record { token = at_col tok_eof "" 6; later = []; errors = 0 }

run-tokenize : run (codes "a + 2") ≡ tokenize (codes "a + 2")
unfolding run
run-tokenize = refl

hole_lexed : run (codes "a + 2") ≡ some hole_tokens
unfolding run
hole_lexed = refl

hole_state : parser_of 0 hole_tokens ≡ some (written hole.phrase hole_end)
unfolding written
hole_state = refl

hole-IsValid : IsValid hole.phrase
unfolding IsValid level operator_at streq
hole-IsValid = (refl, ((refl, omega arith), (refl, omega arith)))

hole_end-Stops : Stops hole_end
unfolding operator_at
hole_end-Stops = ((refl, refl), (refl, refl))

hole-AllWritten : AllWritten 0 (codes "{x}=") (hole ∷ [])
hole-AllWritten = (
  omega arith,
  (
    (
      ((refl, (refl, (refl, (refl, (refl, tt))))), hole-IsValid),
      (
        hole_tokens,
        (hole_end, (sym run-tokenize ∙ hole_lexed, (hole_state, (hole_end-Stops, refl)))),
      ),
    ),
    omega arith,
  ),
)

parse_fstring-render_example :
    Ends
      (λ fuel. parse_fstring outer fuel (render (codes "{x}=") (hole ∷ [])) 7 0)
      (node_new node_fstring 7 (parts_of outer 7 (codes "{x}=") (hole ∷ [])), 0)
parse_fstring-render_example =
    parse_fstring-render outer 7 0 (codes "{x}=") (hole ∷ []) hole-AllWritten

-- asm { nop }
asm_extract_raw-OneLine_example :
    asm_extract_raw (some (codes "asm { nop }\nx\n")) 1 7 1 11 ≡ some (some [])
unfolding skip_lines
asm_extract_raw-OneLine_example =
    asm_extract_raw-OneLine (codes "asm { nop }\nx\n") (codes "asm { nop }") (codes "x\n") 1 7 11
      refl
      (refl, (refl, (refl, (refl, (refl, (refl, (refl, (refl, (refl, (refl, (refl, tt)))))))))))
      (omega arith)

-- asm { and } with an empty line between them
asm_extract_raw_long_example :
    (text : Bytes) × ((asm_extract_raw (some (codes "asm {\n\n}\n")) 1 7 3 1 ≡ some (some text))
      × (8 ≤ length text))
unfolding skip_lines skip_columns
asm_extract_raw_long_example =
    asm_extract_raw_long (codes "asm {\n\n}\n") (codes "}\n") ([] ∷ [] ∷ []) 1 7 3 1 refl
      (tt, (tt, tt)) (omega arith)
