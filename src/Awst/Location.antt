-- ===== src/Awst/Location.antt =====
-- src/awst/SourceLocation.h.
use puya_sol.Prelude.{Option, none, String, ℤ, pos}

pub record SourceLocation : Type 0 where
  pub file : String
  pub line : ℤ
  pub end_line : ℤ
  pub comment_lines : ℤ
  pub column : Option ℤ
  pub end_column : Option ℤ

-- The value that the field initialisers give.
abbrev pub default_location : SourceLocation
default_location = record {
  file = "";
  line = pos 1;
  end_line = pos 1;
  comment_lines = pos 0;
  column = none;
  end_column = none;
}
