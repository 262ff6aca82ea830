-- ===== src/Lexer/Rules.antt =====
-- The body of the loop of `lexer_tokenize`, src/lexer.c, one rule for each of its parts.
pub mod Text
pub mod Operators
pub mod Keywords
pub mod Commands
