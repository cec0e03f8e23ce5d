-- ===== src/Pgvector.antt =====
-- The pgvector store (backend/src/sovereign_rag/store/pgvector.py): its one query as a function of
-- the tables, and its four operations. What the server's own functions give is a parameter.
pub mod Terms
pub mod Legs
pub mod Fusion
pub mod Operations
pub mod Retrieved
pub mod Ranked
pub mod Best
pub mod Hidden
pub mod Sample
mod Tests
use sovereign_rag.Base.{ℕ, List, Bool}
use sovereign_rag.Text.{Text}
use sovereign_rag.Store.{Uuid}
use sovereign_rag.Tables.{Document, Chunk}

pub data Config : Type 0 where
  french german english : Config

-- `chunks c JOIN documents d ON d.id = c.document_id`
pub record Passage (Vector : Type 0) : Type 0 where
  pub chunk : Chunk Vector
  pub document : Document

-- the functions of the server
pub record Postgres (Vector Query Rank Score : Type 0) : Type 0 where
  pub lower : Text → Text
  -- the class `[:alnum:]`
  pub is_alnum : ℕ → Bool
  -- the rows of SELECT DISTINCT, in the order of the plan
  pub distinct : List Text → List Text
  -- tsvector_to_array(to_tsvector(config, tok))
  pub lexemes : Config → Text → List Text
  -- (total * max_df)::int
  pub share : ℕ → ℕ
  pub plainto_tsquery : Config → Text → Query
  pub websearch_to_tsquery : Config → Text → Query
  -- `||` of two queries
  pub either : Query → Query → Query
  -- `tsv @@ query` and ts_rank_cd(tsv, query), where tsv is made of the content
  pub matches : Text → Query → Bool
  pub ts_rank_cd : Text → Query → Rank
  pub rank_below : Rank → Rank → Bool
  -- r >= 0.6 * rmax
  pub reaches_floor : Rank → Rank → Bool
  -- WHERE ... ORDER BY embedding <=> qvec LIMIT n, through the HNSW index: it scans all rows, and
  -- the rows that it comes upon are filtered behind it
  pub nearest : Vector → ℕ → (Passage Vector → Bool) → List (Passage Vector) → List (Passage Vector)
  -- 1.0 / n, w_fts / n, 0, + and <
  pub reciprocal : ℕ → Score
  pub weighted : ℕ → Score
  pub nothing : Score
  pub plus : Score → Score → Score
  pub score_below : Score → Score → Bool
