-- ===== src/Ingestion/Service/Prepare.antt =====
-- What a background task does before it writes: extract, chunk, and embed in batches of 32
-- (`_process` of backend/src/sovereign_rag/ingestion/service.py).
use sovereign_rag.Base.{
  ℕ, zero, suc, List, [], ◌∷◌, ◌++◌, map, not, if◌then◌else◌, length, take, drop,
}
use sovereign_rag.Text.{Text, codes, same_text}
use sovereign_rag.Effects.{
  Fault, value_error, other_error, Outcome, ok, raised, Run, pure, raise, lift, ◌>>=◌,
}
use sovereign_rag.Faults
use sovereign_rag.Store.{Uuid, ChunkIn}
use sovereign_rag.Tables.{Tables, LexemeRow}
use sovereign_rag.Tables.Session.{Site, Server}
use sovereign_rag.Ingestion.Extract.Formats.{Bytes, Readers, extract}
use sovereign_rag.Ingestion.Chunking.Split.{ChunkDraft, chunk_fragments}

-- the settings and the components of IngestionService
pub record IngestDeps (W Vector : Type 0) : Type 0 where
  pub server : Server W
  pub readers : Readers
  pub sha256 : Bytes → Text
  pub embedder_model : Text
  pub embedding_model : Text
  pub chunk_size : ℕ
  pub chunk_overlap : ℕ
  pub embed_documents : List Text → Run W (List Vector)
  pub add_chunks : Uuid → List (ChunkIn Vector) → Run (Site W Vector) (Unit {0})
  pub str_of_fault : Fault → Text
  -- time.monotonic(), in milliseconds
  pub monotonic : W → ℕ × W
  -- a connection of its own, and REFRESH MATERIALIZED VIEW
  pub connect : Run W (Unit {0})
  pub recount : Tables Vector → List LexemeRow

abbrev pub embed_batch_size : ℕ
embed_batch_size = 32

module _ {Vector : Type 0} where
  -- `ChunkIn(…) for draft, vector in zip(batch, vectors, strict=True)`
  unfoldable pub zip_strict : List ChunkDraft → List Vector → Outcome (List (ChunkIn Vector))
  zip_strict [] [] = ok []
  zip_strict (draft ∷ drafts) (vector ∷ vectors) =
      Faults.◌>>=◌ (zip_strict drafts vectors) λ chunks. ok (
        record {
          chunk_index = draft.chunk_index;
          content = draft.content;
          embedding = vector;
          section = draft.section;
          page = draft.page;
        }
        ∷ chunks)
  zip_strict _ _ = raised value_error

module _ {W Vector : Type 0} (deps : IngestDeps W Vector) where
  -- the loop over the batches; a round takes at least one draft, so as many rounds as drafts do
  unfoldable pub embed_from : ℕ → List ChunkDraft → Run W (List (ChunkIn Vector))
  unfolding zip_strict
  embed_from zero drafts = pure []
  embed_from (suc rounds) [] = pure []
  embed_from (suc rounds) (d ∷ drafts) = do
    let batch = take embed_batch_size (d ∷ drafts)
    vectors ← deps.embed_documents (map (λ x. x.content) batch)
    here ← lift (zip_strict batch vectors)
    more ← embed_from rounds (drop embed_batch_size (d ∷ drafts))
    pure (here ++ more)

  abbrev pub model_mismatch : Text
  model_mismatch =
      codes "embedding client model '"
      ++ (deps.embedder_model
          ++ (codes "' does not match EMBEDDING_MODEL '" ++ (deps.embedding_model ++ codes "'")))

  unfoldable pub prepare : Bytes → Text → Run W (List (ChunkIn Vector) × List (Text × Text))
  unfolding embed_from
  prepare data_bytes content_type =
      if not (same_text deps.embedder_model deps.embedding_model)
      then raise (other_error model_mismatch)
      else do
        extracted ← lift (extract deps.readers data_bytes content_type)
        drafts ← lift (chunk_fragments extracted content_type deps.chunk_size deps.chunk_overlap)
        chunks ← embed_from (length drafts) drafts
        pure (chunks, extracted.meta)
