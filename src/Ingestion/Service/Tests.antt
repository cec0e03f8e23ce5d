-- ===== src/Ingestion/Service/Tests.antt =====
-- One file through the service, and the theorems at it.
use sovereign_rag.Ingestion.Service.Sample.{server, deps, up, empty, idle}
use sovereign_rag.Base.{
  if◌then◌else◌, ℕ, suc, ◌+◌, ◌≡◌, refl, inl, none, List, [], ◌∷◌, Bool, true, false,
}
use sovereign_rag.Text.{is_space, strip, codes, same_text}
use sovereign_rag.Effects.{
  cancelled, Fault, other_error, Outcome, ok, raised, Run, Ends, Anything, Allowed,
}
use sovereign_rag.Store.{ChunkIn}
use sovereign_rag.Tables.{failed, document_of, Document, ready, Tables, visible_to}
use sovereign_rag.Tables.Session.{commit, Site, transaction}
use sovereign_rag.Pgvector.Operations.{insert_chunk, insert_chunks, add_chunks}
use sovereign_rag.Pgvector.Hidden.{with_rows, AllOrNothing, add_chunks-AllOrNothing}
use sovereign_rag.Ingestion.Extract.Formats.{extract}
use sovereign_rag.Ingestion.Service.State.{
  Registered, registered, duplicate_content, adding, flipping, Service,
}
use sovereign_rag.Ingestion.Service.Uploads.{
  ingest_upload_with, ingest_upload, write_upload, new_document, new_task,
}
use sovereign_rag.Ingestion.Service.Process.{run_stage, process}
use sovereign_rag.Ingestion.Service.Prepare.{prepare}
use sovereign_rag.Ingestion.Service.Consistent.{IsComplete}
use sovereign_rag.Ingestion.Service.Steps.{
  State, Step, uploads, runs, here, next, Stores, StoresWhole,
}
use sovereign_rag.Ingestion.Chunking.Split.{chunk_fragments}
use sovereign_rag.Effects
use sovereign_rag.Ingestion.Chunking.Units.{atomic_units, paragraphs, paragraph_units}
use sovereign_rag.Ingestion.Chunking.Pack.{pack_step}
use sovereign_rag.Faults.{concat_each, ◌>>=◌, Allowed-bind}
use sovereign_rag.Ingestion.Service.Reached.{Reach-IsComplete}
use sovereign_rag.Ingestion.Service.Settled.{Caught, IsSettled, process-settles}
use sovereign_rag.Ingestion.Service.Answers.{IsAnswered, ingest_upload-IsAnswered}

-- the same bytes twice: one row, one task
abbrev twice : Outcome Registered × Service ℕ ℕ
unfolding ingest_upload same_text visible_to
twice = ingest_upload deps (λ t. t) up (ingest_upload deps (λ t. t) up idle).1

twice_deduplicated : twice.0 ≡ ok (registered (new_document 7 8 up.data_bytes up) true)
unfolding twice visible_to
twice_deduplicated = refl

twice_scheduled : twice.1.tasks ≡ new_task 7 up ∷ []
unfolding twice visible_to
twice_scheduled = refl

-- another user's upload of the same bytes is refused
refused :
    (ingest_upload deps
      (λ t. t)
      (record up { owner_id = codes "bob" })
      (ingest_upload deps (λ t. t) up idle).1).0
    ≡ ok duplicate_content
unfolding ingest_upload same_text visible_to
refused = refl

-- two uploads that race past the first SELECT: the second fails
raced :
    (ingest_upload deps
      (λ t. record t { documents = new_document 3 4 up.data_bytes up ∷ [] })
      up
      idle).0
    ≡ raised (other_error (codes "InFailedSqlTransaction"))
unfolding ingest_upload same_text visible_to
raced = refl

-- the file has failed before
abbrev failed_before : Service ℕ ℕ
failed_before = record idle {
  site = record idle.site {
    tables = record idle.site.tables {
      documents = record (new_document 7 8 up.data_bytes up) { status = failed } ∷ [];
    };
  };
}

-- its new task stays where the commit fails, though the row is still failed
uncommitted :
    (ingest_upload_with deps (raised cancelled) (λ t. t) up failed_before).1.tasks
    ≡ new_task 7 up ∷ []
unfolding ingest_upload_with ingest_upload same_text visible_to document_of
uncommitted = refl

ingest_upload-IsAnswered_example :
    IsAnswered deps
      (λ t. t)
      up
      failed_before
      (raised cancelled)
      (ingest_upload_with deps (raised cancelled) (λ t. t) up failed_before)
ingest_upload-IsAnswered_example =
    ingest_upload-IsAnswered deps (λ t. t) up failed_before (raised cancelled)

stores : StoresWhole deps
stores id chunks s = whole _ (add_chunks-AllOrNothing server (λ v. true) (λ n. 100 + n) id chunks s)
  where
    whole :
        (r : Outcome (Unit {0}) × Site ℕ ℕ)
        → AllOrNothing server (λ v. true) (λ n. 100 + n) id chunks s r
        → Stores deps id chunks s r
    whole (ok _, s') h = ((λ n. 100 + n), h)
    whole (raised e, s') h = h

-- four steps: the upload and the three stages of its task
abbrev started : State ℕ
started = record { tables = empty; tasks = [] }

abbrev registered_state : State ℕ
registered_state = record {
  tables = record empty { documents = new_document 7 8 up.data_bytes up ∷ [] };
  tasks = new_task 7 up ∷ [];
}

abbrev serving : State ℕ → Service ℕ ℕ
serving s = record {
  site = record { world = 9; tables = s.tables };
  tasks = s.tasks;
  last_lexeme_refresh = none;
}

abbrev batch : List (ChunkIn ℕ)
batch =
    record { chunk_index = 0; content = up.data_bytes; embedding = 21; section = none; page = none }
    ∷ []

abbrev computed_state : State ℕ
computed_state = record registered_state {
  tasks = record (new_task 7 up) { stage = adding batch [] } ∷ [];
}

abbrev stored_state : State ℕ
stored_state = record {
  tables = with_rows (λ n. 100 + n) 7 0 batch registered_state.tables;
  tasks = record (new_task 7 up) { stage = flipping [] } ∷ [];
}

abbrev finished : Document
finished = record (new_document 7 8 up.data_bytes up) { status = ready }

abbrev finished_state : State ℕ
finished_state = record {
  tables = record stored_state.tables { documents = finished ∷ [] };
  tasks = [];
}

uploaded : Step deps started registered_state
unfolding write_upload
uploaded =
    uploads none 7 8 up _ _ _ (record { of_documents = tt; of_tasks = tt; of_chunks = tt }) tt refl
      refl

computes : Step deps registered_state computed_state
unfolding run_stage extract chunk_fragments strip same_text Effects.◌>>=◌ concat_each is_space
    atomic_units paragraphs paragraph_units pack_step
computes = runs [] (new_task 7 up) [] (serving registered_state) refl refl refl

stored : Step deps computed_state stored_state
unfolding run_stage add_chunks document_of
stored =
    runs [] (record (new_task 7 up) { stage = adding batch [] }) [] (serving computed_state) refl
      refl refl

flipped : Step deps stored_state finished_state
unfolding run_stage
flipped =
    runs [] (record (new_task 7 up) { stage = flipping [] }) [] (serving stored_state) refl refl
      refl

Reach-IsComplete_example : IsComplete deps finished finished_state.tables.chunks
Reach-IsComplete_example =
    Reach-IsComplete deps stores (record { single = tt; consistent = tt })
      (next (next (next (next here uploaded) computes) stored) flipped) finished (inl refl) refl

settles : Ends Anything Caught (prepare deps up.data_bytes up.content_type)
unfolding prepare extract chunk_fragments strip same_text Effects.◌>>=◌ concat_each is_space
    atomic_units paragraphs paragraph_units pack_step
settles = record { at = λ w. tt }

inserted-Caught :
    (n : ℕ) (chunks : List (ChunkIn ℕ)) (t : Tables ℕ)
    → Allowed Anything Caught (insert_chunks (λ v. true) (λ n. 100 + n) 7 n chunks t)
unfolding insert_chunks insert_chunk
inserted-Caught n [] t = tt
inserted-Caught n (c ∷ chunks) t =
    Allowed-bind Anything Anything Caught (insert_chunk (λ v. true) (100 + n) 7 c t) _ (one _ _)
      λ t' _. inserted-Caught (suc n) chunks t'
  where
    one :
        (b : Bool) (t' : Tables ℕ)
        → Allowed Anything Caught
            (if b then ok t' else raised (other_error (codes "IntegrityError")))
    one true t' = tt
    one false t' = λ e. cc e

added-Caught :
    (chunks : List (ChunkIn ℕ)) (s : Site ℕ ℕ)
    → Allowed Anything Caught (deps.add_chunks 7 chunks s).0
unfolding add_chunks transaction
added-Caught chunks s =
    done (insert_chunks (λ v. true) (λ n. 100 + n) 7 0 chunks s.tables)
      (inserted-Caught 0 chunks s.tables)
  where
    done :
        (r : Outcome (Tables ℕ))
        → Allowed Anything Caught r
        → Allowed Anything Caught (commit (r >>= λ t'. ok (tt, t')) s).0
    done (ok t) h = tt
    done (raised e) h = h

process-settles_example :
    ((process deps (new_task 7 up) (serving registered_state)).0 ≡ none)
    × IsSettled 7 (process deps (new_task 7 up) (serving registered_state)).1.site.tables.documents
process-settles_example =
    process-settles deps (new_task 7 up) (λ w. refl) settles (λ chunks s. added-Caught chunks s)
      (serving registered_state)
