-- ===== src/Ingestion/Service/State.antt =====
-- The state of IngestionService and what its statements write in a row of `documents`
-- (backend/src/sovereign_rag/ingestion/service.py).
use sovereign_rag.Base.{ℕ, Option, some, List, Bool}
use sovereign_rag.Text.{Text}
use sovereign_rag.Store.{Uuid, ChunkIn}
use sovereign_rag.Tables.{Document, ready, failed, Tables, update_document}
use sovereign_rag.Tables.Session.{Site}
use sovereign_rag.Ingestion.Extract.Formats.{Bytes}

-- the arguments of `ingest_upload`
pub record Upload : Type 0 where
  pub filename : Text
  pub data_bytes : Bytes
  pub content_type : Text
  pub owner_id : Text

-- what `ingest_upload` returns, with `deduplicated`, or DuplicateContentError
pub data Registered : Type 0 where
  registered : Document → Bool → Registered
  duplicate_content : Registered

-- the next thing that `_process` does: everything up to the chunks, `add_chunks`, `_MARK_READY`, or
-- the handler with `_MARK_FAILED`
pub data Stage (Vector : Type 0) : Type 0 where
  computing : Stage Vector
  adding : List (ChunkIn Vector) → List (Text × Text) → Stage Vector
  flipping : List (Text × Text) → Stage Vector
  failing : Text → Stage Vector

pub record Task (Vector : Type 0) : Type 0 where
  pub document_id : Uuid
  pub data_bytes : Bytes
  pub content_type : Text
  pub stage : Stage Vector

pub record Service (W Vector : Type 0) : Type 0 where
  pub site : Site W Vector
  pub tasks : List (Task Vector)
  pub last_lexeme_refresh : Option ℕ

-- `_MARK_READY` and `_MARK_FAILED`
abbrev pub set_ready : List (Text × Text) → Document → Document
set_ready meta d = record d { status = ready; meta = meta }

abbrev pub set_failed : Text → Document → Document
set_failed error d = record d { status = failed; error = some error }

module _ {Vector : Type 0} where
  abbrev pub update_row : Uuid → (Document → Document) → Tables Vector → Tables Vector
  update_row id f t = record t { documents = update_document id f t.documents }

module _ {W Vector : Type 0} where
  abbrev pub in_world : {A : Type 0} → (W → A × W) → Service W Vector → A × Service W Vector
  in_world f s = let (a, w) = f s.site.world in (a, record s { site = record s.site { world = w } })

  abbrev pub on_tables :
      {A : Type 0} → (Site W Vector → A × Site W Vector) → Service W Vector → A × Service W Vector
  on_tables f s = let (a, site) = f s.site in (a, record s { site = site })
