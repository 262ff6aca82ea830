-- ===== src/Includes.antt =====
-- The expansion of `incl` lines, src/includes.c.
pub mod Paths
pub mod Directive
pub mod Expand
mod Tests
