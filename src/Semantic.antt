-- ===== src/Semantic.antt =====
-- The semantic checker, src/semantic.c.
pub mod Symbols
pub mod Collect
pub mod Types
mod Tests
