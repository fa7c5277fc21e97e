-- ===== src/Linker.antt =====
-- The linker's symbol table.
pub mod Symbols
mod Runs
