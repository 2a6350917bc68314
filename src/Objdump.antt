-- ===== src/Objdump.antt =====
-- tools/decomp-permuter/src/objdump.py: the output of objdump as lines that can be compared.
pub mod Texts
pub mod Branches
pub mod Reloc
pub mod Simplify
pub mod Operand
pub mod Rows
mod Tests
