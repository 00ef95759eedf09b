-- ===== src/Sanitizer.antt =====
-- The types of the sanitizer's answers: rubezh-api/internal/sanitizer/types.go. A JSON number that
-- Go reads into an int may be negative. A float64 is only passed on: its 64 bits.
use rubez_ai.Prelude.{ℕ, Option, List, Text}
use rubez_ai.Prelude.Int.{ℤ}
use rubez_ai.Policy.{Risk}

pub record Entity : Type 0 where
  pub type : Text
  pub category : Text
  pub start : ℤ
  pub end : ℤ
  pub pseudonym : Text
  pub raw_hash : Text
  pub confidence : ℕ
  pub detector : Text

pub record PreviewResponse : Type 0 where
  pub sanitized_text : Text
  pub entities : List Entity
  pub risk : Risk
  pub mapping_id : Option Text
