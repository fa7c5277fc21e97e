-- ===== src/Source.antt =====
-- ast/file_info.go and ast/no_source.go: positions and spans in a source file.
use protocompile.Prelude.{ℕ, String}

-- `SourcePos`; a zero line or column means that it is unknown.
pub record SourcePos : Type 0 where
  pub filename : String
  pub line : ℕ
  pub col : ℕ
  pub offset : ℕ

-- `SourceSpan`: what its methods `Start` and `End` return.
pub record SourceSpan : Type 0 where
  pub start : SourcePos
  pub end : SourcePos

unfoldable pub unknown_pos : String → SourcePos
unknown_pos filename = record { filename = filename; line = 0; col = 0; offset = 0 }

unfoldable pub unknown_span : String → SourceSpan
unfolding unknown_pos
unknown_span filename = record { start = unknown_pos filename; end = unknown_pos filename }

-- A span for tests: line and column of a token of one character in a file.
abbrev pub sample_span : ℕ → ℕ → SourceSpan
sample_span line col = record {
  start = record { filename = "a.proto"; line = line; col = col; offset = 0 };
  end = record { filename = "a.proto"; line = line; col = col; offset = 0 };
}
