-- ===== src/Parser/Total.antt =====
-- Runs of the expression parser of src/parser.c on tokens without `fn`, well-formed or not.
pub mod States
pub mod Types
pub mod Forms
pub mod Names
pub mod Loops
pub mod Primary
pub mod Whole
