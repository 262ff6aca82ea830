-- ===== src/X86.antt =====
-- The native backend, src/x86.c.
pub mod Word
pub mod Types
pub mod Buffer
pub mod Code
pub mod Access
pub mod Link
pub mod Scope
pub mod Assign
pub mod Divide
pub mod Elf
pub mod Machine
pub mod Encode
pub mod Decode
mod Tests
