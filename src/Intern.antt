-- ===== src/Intern.antt =====
-- internal/intern: interning of strings.
pub mod Char6
pub mod Table
