-- ===== src/Lexer.antt =====
-- The Classic lexer, src/lexer.c.
pub mod Token
pub mod State
pub mod Strings
pub mod Numbers
pub mod Action
pub mod Rules
pub mod Tokenizer
pub mod Run
pub mod Scan
pub mod Payload
pub mod Munch
pub mod Decimal
pub mod Reach
pub mod Position
mod Tests
