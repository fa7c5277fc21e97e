-- ===== src/Parser.antt =====
-- The parser's checks of the descriptor protos that it builds: parser/validate.go.
-- Bounds is a part of how it builds them: parser/result.go.
pub mod Ranges
pub mod Names
pub mod Imports
pub mod Messages
pub mod Enums
pub mod Fields
pub mod Basic
pub mod Bounds
mod Runs
