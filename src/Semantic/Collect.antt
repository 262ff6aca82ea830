-- ===== src/Semantic/Collect.antt =====
-- `first_pass` of src/semantic.c, which declares the names of a program before the check.
pub mod Block
pub mod Names
pub mod Pass
pub mod Growth
pub mod Declared
pub mod NullBlock
mod Tests
