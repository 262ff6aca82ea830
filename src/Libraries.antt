-- ===== src/Libraries.antt =====
-- The checks on the tensor library, src/libraries.c.
pub mod Api
pub mod Check
mod Tests
