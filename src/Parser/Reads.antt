-- ===== src/Parser/Reads.antt =====
-- The expression parser of src/parser.c on the phrases of the grammar.
pub mod Tokens
pub mod Levels
pub mod First
pub mod Items
pub mod Access
pub mod Operators
pub mod Whole
