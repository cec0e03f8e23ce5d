-- ===== src/Ingestion/Extract.antt =====
-- Extracted documents (backend/src/sovereign_rag/ingestion/extract.py).
pub mod Headings
pub mod Formats
pub mod Ink
pub mod Markdown
mod Tests
use sovereign_rag.Base.{ℕ, Option, List}
use sovereign_rag.Text.{Text}

pub record Fragment : Type 0 where
  pub text : Text
  pub section : Option Text
  pub page : Option ℕ

-- `meta` is a dict whose keys are not repeated
pub record ExtractedDoc : Type 0 where
  pub fragments : List Fragment
  pub meta : List (Text × Text)
