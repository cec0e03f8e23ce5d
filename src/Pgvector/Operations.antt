-- ===== src/Pgvector/Operations.antt =====
-- The operations of PgVectorStore.
use sovereign_rag.Base.{
  ℕ, suc, List, [], ◌∷◌, ◌++◌, Bool, not, ◌&&◌, ◌==◌, if◌then◌else◌, is_some, exists_in,
}
use sovereign_rag.Text.{Text, codes}
use sovereign_rag.Effects.{Outcome, ok, raised, other_error, Run}
use sovereign_rag.Faults.{◌>>=◌}
use sovereign_rag.Store.{Uuid, ChunkIn, SearchHit, VectorStore}
use sovereign_rag.Tables.{Tables, document_of, delete_row}
use sovereign_rag.Tables.Session.{Site, Server, transaction}
use sovereign_rag.Pgvector.{Postgres}
use sovereign_rag.Pgvector.Fusion.{SearchSettings, search_rows}

module _ {Vector : Type 0} (fits : Vector → Bool) where
  -- `INSERT_CHUNK`, under the foreign key, UNIQUE (document_id, chunk_index) and the column's width
  unfoldable pub insert_chunk :
      Uuid → Uuid → ChunkIn Vector → Tables Vector → Outcome (Tables Vector)
  insert_chunk new_id document_id c t =
      if is_some (document_of document_id t.documents)
        && not (
            exists_in (λ x. x.document_id == document_id && x.chunk_index == c.chunk_index)
              t.chunks)
        && fits c.embedding
      then ok (record t {
        chunks =
            t.chunks
            ++ record {
              id = new_id;
              document_id = document_id;
              chunk_index = c.chunk_index;
              content = c.content;
              section = c.section;
              page = c.page;
              embedding = c.embedding;
            }
              ∷ [];
      })
      else raised (other_error (codes "IntegrityError"))

  -- `executemany`; `ids n` is the n-th of the identifiers that the server draws
  unfoldable pub insert_chunks :
      (ℕ → Uuid) → Uuid → ℕ → List (ChunkIn Vector) → Tables Vector → Outcome (Tables Vector)
  unfolding insert_chunk
  insert_chunks ids document_id n [] t = ok t
  insert_chunks ids document_id n (c ∷ chunks) t =
      insert_chunk (ids n) document_id c t >>= λ t'. insert_chunks ids document_id (suc n) chunks t'

module _ {W Vector : Type 0} (server : Server W) where
  unfoldable pub add_chunks :
      (Vector → Bool) → (ℕ → Uuid) → Uuid → List (ChunkIn Vector) → Run (Site W Vector) (Unit {0})
  unfolding insert_chunks transaction
  add_chunks fits ids document_id chunks =
      transaction server λ t. insert_chunks fits ids document_id 0 chunks t >>= λ t'. ok (tt, t')

  unfoldable pub delete_document : Uuid → Run (Site W Vector) (Unit {0})
  unfolding transaction delete_row
  delete_document document_id = transaction server λ t. ok (tt, delete_row document_id t)

  unfoldable pub healthcheck : Run (Site W Vector) (Unit {0})
  unfolding transaction
  healthcheck = transaction server λ t. ok (tt, t)

module _ {W Vector Query Rank Score : Type 0} (server : Server W)
    (pg : Postgres Vector Query Rank Score) (settings : SearchSettings) where
  unfoldable pub hybrid_search :
      Text → Vector → Text → ℕ → Run (Site W Vector) (List (SearchHit Score))
  unfolding transaction search_rows
  hybrid_search query_text query_embedding user_id k =
      transaction server λ t. ok (search_rows pg settings t query_text query_embedding user_id k, t)

  -- the contract that the chat and the agents are given
  unfoldable pub pgvector_store : VectorStore (Site W Vector) Vector Score
  unfolding hybrid_search
  pgvector_store = record { hybrid_search = hybrid_search }
