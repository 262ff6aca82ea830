-- ===== src/Lexer/Run.antt =====
-- One name to unfold where the whole lexer is to compute.
use lu_language.Prelude.{
  decimal_digits, Bytes, List, Option, isdigit, isalpha, isalnum, isxdigit, streq, has_prefix,
  c_str, snprintf,
}
use lu_language.Lexer.Token.{Token}
use lu_language.Lexer.State.{
  lexer_new, peek, cur, advance, advance_by, starts_with, advance_on, advance_while, skip_while,
  skip_spaces, skip_line, text_between, is_word_byte, read_word, payload_on, skip_byte,
  read_payload, read_cor, read_brace_payload,
}
use lu_language.Lexer.Strings.{
  open_quote, at_close, unescape, read_char, string_on, read_buffer, read_string,
}
use lu_language.Lexer.Numbers.{
  decimal_on, at_exponent, skip_sign, read_exponent, at_radix, scan_number, skip_suffix,
  read_number,
}
use lu_language.Lexer.Rules.Text.{
  in_comment, skip_comment, comment, newline, emit_string, plain_string, f_string, template_string,
  number, atoi_on, print_decimal, block_id, directive_word, directive, annotation,
}
use lu_language.Lexer.Rules.Operators.{
  ops3, ops2, singles, try_op3, try_op2, arrow, operator, single_type, single_byte,
}
use lu_language.Lexer.Rules.Keywords.{
  fixed, slash_keywords, try_fixed, lang_decl, slash_keyword, words, lookup_word, keyword_type,
  word,
}
use lu_language.Lexer.Rules.Commands.{
  command, game_command, distance, mode, cor, braced, linref, lang_on, lang_bind, definition,
  command_word,
}
use lu_language.Lexer.Tokenizer.{
  literal, symbol, named, past_dollar, body, at_end, tokenize_on, lexer_tokenize, tokenize,
}

-- `tokenize`, with all that it calls on this line.
unfoldable pub run : Bytes → Option (List Token)
unfolding isdigit isalpha isalnum isxdigit streq has_prefix c_str snprintf lexer_new peek cur
    advance advance_by starts_with advance_on advance_while skip_while skip_spaces skip_line
    text_between is_word_byte read_word payload_on skip_byte read_payload read_cor
    read_brace_payload open_quote at_close unescape read_char string_on read_buffer read_string
    decimal_on at_exponent skip_sign read_exponent at_radix scan_number skip_suffix read_number
    in_comment skip_comment comment newline emit_string plain_string f_string template_string number
    atoi_on decimal_digits print_decimal block_id directive_word directive annotation ops3 ops2
    singles try_op3 try_op2 arrow operator single_type single_byte fixed slash_keywords try_fixed
    lang_decl slash_keyword words lookup_word keyword_type word command game_command distance mode
    cor braced linref lang_on lang_bind definition command_word literal symbol named past_dollar
    body at_end tokenize_on lexer_tokenize tokenize
run src = tokenize src
