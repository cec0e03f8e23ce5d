-- ===== src/Ingestion/Service/Steps.antt =====
-- What may happen to the tables and the tasks, one step at a time and in any order: uploads, the
-- stages of the tasks, deletions, shares, and a restart
-- (backend/src/sovereign_rag/ingestion/service.py, backend/src/sovereign_rag/routes/documents.py and
-- the sweep of backend/src/sovereign_rag/main.py).
use sovereign_rag.Base.{ℕ, ◌≡◌, Option, none, some, List, [], ◌∷◌, ◌++◌, Every}
use sovereign_rag.Text.{Text}
use sovereign_rag.Effects.{Outcome, ok, raised}
use sovereign_rag.Store.{Uuid, ChunkIn}
use sovereign_rag.Tables.{Document, Permission, Tables, delete_row}
use sovereign_rag.Tables.Session.{Site}
use sovereign_rag.Pgvector.Hidden.{with_rows}
use sovereign_rag.Ingestion.Service.State.{Upload, Registered, Stage, Task, Service}
use sovereign_rag.Ingestion.Service.Uploads.{write_upload}
use sovereign_rag.Ingestion.Service.Process.{run_stage, sweep_interrupted}
use sovereign_rag.Ingestion.Service.Prepare.{IngestDeps}

pub record State (Vector : Type 0) : Type 0 where
  pub tables : Tables Vector
  pub tasks : List (Task Vector)

-- a row that was read for this digest: if it is still there, it has the digest still
abbrev pub IsKnown : Text → Option Document → List Document → Type 0
IsKnown sha256 none documents = Unit
IsKnown sha256 (some e) documents = Every (λ d. d.id ≡ e.id → d.sha256 ≡ sha256) documents

module _ {Vector : Type 0} where
  -- nothing bears the identifier that the server draws
  pub record IsFresh (id : Uuid) (s : State Vector) : Type 0 where
    pub of_documents : Every (λ d. d.id ≡ id → ⊥) s.tables.documents
    pub of_tasks : Every (λ task. task.document_id ≡ id → ⊥) s.tasks
    pub of_chunks : Every (λ c. c.document_id ≡ id → ⊥) s.tables.chunks

  -- the task in its next stage, if it has one
  abbrev pub in_stage : Task Vector → Option (Stage Vector) → List (Task Vector)
  in_stage task none = []
  in_stage task (some stage) = record task { stage = stage } ∷ []

module _ {W Vector : Type 0} (deps : IngestDeps W Vector) where
  pub data Step (s u : State Vector) : Type 0 where
    -- `existing` was read before, by the first SELECT of `ingest_upload`
    uploads :
        (existing : Option Document) (new_id : Uuid) (now : ℕ) (up : Upload) (answer : Registered)
        (t : Tables Vector) (created : List (Task Vector))
        → IsFresh new_id s
        → IsKnown (deps.sha256 up.data_bytes) existing s.tables.documents
        → write_upload existing new_id now (deps.sha256 up.data_bytes) up s.tables
          ≡ ok (answer, t, created)
        → u ≡ record { tables = t; tasks = s.tasks ++ created }
        → Step s u
    -- a task goes on, in any world
    runs :
        (before : List (Task Vector)) (task : Task Vector) (after : List (Task Vector))
        (service : Service W Vector)
        → s.tasks ≡ before ++ task ∷ after
        → service.site.tables ≡ s.tables
        → (let (next, service') = run_stage deps task task.stage service in
            u ≡ record {
              tables = service'.site.tables;
              tasks = before ++ (in_stage task next ++ after);
            })
        → Step s u
    deletes : (id : Uuid) → u ≡ record s { tables = delete_row id s.tables } → Step s u
    shares :
        (permissions : List Permission)
        → u ≡ record s { tables = record s.tables { permissions = permissions } }
        → Step s u
    -- the tasks are gone, and the documents in processing are swept
    restarts : u ≡ record { tables = sweep_interrupted s.tables; tasks = [] } → Step s u

  pub data Reach (s : State Vector) : State Vector → Type 0 where
    here : Reach s s
    next : {t u : State Vector} → Reach s t → Step t u → Reach s u

  -- what the ingestion relies on in the store: a batch is written whole or not at all
  abbrev pub Stores :
      Uuid → List (ChunkIn Vector) → Site W Vector → Outcome (Unit {0}) × Site W Vector → Type 0
  Stores id chunks s (ok _, s') =
      (ids : (ℕ → Uuid)) × (s'.tables ≡ with_rows ids id 0 chunks s.tables)
  Stores id chunks s (raised e, s') = s'.tables ≡ s.tables

  abbrev pub StoresWhole : Type 0
  StoresWhole =
      (id : Uuid) (chunks : List (ChunkIn Vector)) (s : Site W Vector)
      → Stores id chunks s (deps.add_chunks id chunks s)
