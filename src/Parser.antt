-- ===== src/Parser.antt =====
-- The expressions and types of the parser, src/parser.c.
pub mod Kinds
pub mod Cursor
pub mod Nodes
pub mod Types
pub mod Forms
pub mod Calls
pub mod Literals
pub mod Names
pub mod Lambda
pub mod Primary
pub mod Expr
pub mod Template
pub mod Fuel
pub mod Phrase
pub mod Reads
pub mod Pieces
pub mod Asm
pub mod Overflow
pub mod Stuck
pub mod Total
pub mod Casts
mod Tests
