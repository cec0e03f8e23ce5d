-- ===== src/Store.antt =====
-- The contract of the retrieval components (backend/src/sovereign_rag/store/base.py,
-- backend/src/sovereign_rag/reranking/base.py, backend/src/sovereign_rag/embeddings/base.py).
use sovereign_rag.Base.{ℕ, Option, List}
use sovereign_rag.Text.{Text}
use sovereign_rag.Effects.{Run}

-- UUIDs and user ids are only ever compared.
abbrev pub Uuid : Type 0
Uuid = ℕ

-- `Score` is the type of the fused scores, floats in the source.
pub record SearchHit (Score : Type 0) : Type 0 where
  pub chunk_id : Uuid
  pub document_id : Uuid
  pub filename : Text
  pub section : Option Text
  pub page : Option ℕ
  pub content : Text
  pub score : Score
  pub vec_rank : Option ℕ
  pub fts_rank : Option ℕ

-- one chunk ready for insertion
pub record ChunkIn (Vector : Type 0) : Type 0 where
  pub chunk_index : ℕ
  pub content : Text
  pub embedding : Vector
  pub section : Option Text
  pub page : Option ℕ

-- EmbeddingClient, as far as a query is concerned
pub record EmbeddingClient (W Vector : Type 0) : Type 0 where
  pub embed_query : Text → Run W Vector

-- VectorStore, as far as a query is concerned
pub record VectorStore (W Vector Score : Type 0) : Type 0 where
  pub hybrid_search : Text → Vector → Text → ℕ → Run W (List (SearchHit Score))

-- Reranker
pub record Reranker (W Score : Type 0) : Type 0 where
  pub rerank : Text → List (SearchHit Score) → ℕ → Run W (List (SearchHit Score))
