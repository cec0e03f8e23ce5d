-- ===== src/Ingestion/Service/Consistent.antt =====
-- What holds of the documents, their chunks and the background tasks between two steps
-- (backend/src/sovereign_rag/ingestion/service.py).
use sovereign_rag.Base.{
  Every-weaken, ℕ, suc, ◌==◌, ==_iff, ◌≡◌, refl, sym, ◌∙◌, ap, List, [], ◌∷◌, ◌++◌, map, true, not,
  arith, select, Every, Every-append, IsKeyed,
}
use sovereign_rag.Text.{Text}
use sovereign_rag.Store.{Uuid, ChunkIn}
use sovereign_rag.Tables.{Document, processing, ready, Chunk, Tables, chunks_of}
use sovereign_rag.Pgvector.Hidden.{rows_of}
use sovereign_rag.Ingestion.Chunking.Split.{ChunkDraft}
use sovereign_rag.Ingestion.Extract.Formats.{Bytes}
use sovereign_rag.Ingestion.Service.State.{Stage, computing, adding, flipping, failing, Task}
use sovereign_rag.Ingestion.Service.Prepare.{IngestDeps}
use sovereign_rag.Ingestion.Service.Batches.{draft_of, IsPrepared}

-- the draft that a row of `chunks` holds
abbrev pub stored_draft : {Vector : Type 0} → Chunk Vector → ChunkDraft
stored_draft c = record {
  chunk_index = c.chunk_index;
  content = c.content;
  section = c.section;
  page = c.page;
}

module _ {W Vector : Type 0} (deps : IngestDeps W Vector) where
  -- the stored chunks of the document are the drafts of a file with its digest, all of them and in
  -- their order, and its metadata are the file's
  pub record IsComplete (d : Document) (chunks : List (Chunk Vector)) : Type 0 where
    pub data_bytes : Bytes
    pub content_type : Text
    pub same_digest : d.sha256 ≡ deps.sha256 data_bytes
    pub prepared :
        IsPrepared deps data_bytes content_type (map stored_draft (chunks_of d.id chunks)) d.meta

  -- what a task of this stage has done, where `rows` are the chunks of its document
  abbrev pub AtStage : Task Vector → Stage Vector → List (Chunk Vector) → Type 0
  AtStage task computing rows = rows ≡ []
  AtStage task (adding chunks meta) rows =
      (rows ≡ []) × IsPrepared deps task.data_bytes task.content_type (map draft_of chunks) meta
  AtStage task (flipping meta) rows =
      IsPrepared deps task.data_bytes task.content_type (map stored_draft rows) meta
  AtStage task (failing error) rows = Unit

  pub record IsRunning (d : Document) (chunks : List (Chunk Vector)) (task : Task Vector)
      : Type 0 where
    pub busy : d.status ≡ processing
    pub same_digest : d.sha256 ≡ deps.sha256 task.data_bytes
    pub at_stage : AtStage task task.stage (chunks_of d.id chunks)

  abbrev pub Runs : Document → List (Chunk Vector) → Task Vector → Type 0
  Runs d chunks task = task.document_id ≡ d.id → IsRunning d chunks task

  -- a ready document is complete, and a document that a task works on is in processing
  pub record IsConsistent (tasks : List (Task Vector)) (chunks : List (Chunk Vector)) (d : Document)
      : Type 0 where
    pub complete : d.status ≡ ready → IsComplete d chunks
    pub runs : Every (Runs d chunks) tasks

  -- at most one task works on a document
  pub record IsSound (t : Tables Vector) (tasks : List (Task Vector)) : Type 0 where
    pub single : IsKeyed (λ task. task.document_id) tasks
    pub consistent : Every (IsConsistent tasks t.chunks) t.documents

-- the parts of a list behind and before one of its members
module _ {A : Type 0} (P : A → Type 0) where
  pub Every-split :
      (xs : List A) (y : A) (ys : List A) → Every P (xs ++ y ∷ ys) → Every P xs × P y × Every P ys
  Every-split [] y ys h = (tt, h.0, h.1)
  Every-split (x ∷ xs) y ys h =
      let (before, at, after) = Every-split xs y ys h.1 in ((h.0, before), at, after)

module _ {A : Type 0} (key : A → ℕ) where
  abbrev Other : A → A → Type 0
  Other y x = key x ≡ key y → ⊥

  pub others_than :
      (xs : List A) (y : A) (ys : List A)
      → IsKeyed key (xs ++ y ∷ ys)
      → Every (λ x. key x ≡ key y → ⊥) xs × Every (λ x. key x ≡ key y → ⊥) ys
  others_than [] y ys k = (tt, k.0)
  others_than (x ∷ xs) y ys k =
      let (before, after) = others_than xs y ys k.1 in
      let (_, at, _) = Every-split (Other x) xs y ys k.0 in ((λ e. at (sym e), before), after)

  -- a member that is replaced by at most one of its key
  pub replaced-IsKeyed :
      (xs : List A) (y : A) (ys more : List A)
      → IsKeyed key more
      → Every (λ z. key z ≡ key y) more
      → IsKeyed key (xs ++ y ∷ ys)
      → IsKeyed key (xs ++ (more ++ ys))
  replaced-IsKeyed [] y ys more m same k = front more m same
    where
      front :
          (zs : List A) → IsKeyed key zs → Every (λ z. key z ≡ key y) zs → IsKeyed key (zs ++ ys)
      front [] m same = k.1
      front (z ∷ zs) m same = (
        Every-append _ zs ys m.0 (Every-weaken _ _ (λ x n e. n (e ∙ same.0)) ys k.0),
        front zs m.1 same.1,
      )
  replaced-IsKeyed (x ∷ xs) y ys more m same k =
      let (before, at, after) = Every-split (Other x) xs y ys k.0 in
      (
        Every-append _ xs (more ++ ys) before
            (Every-append _ more ys (Every-weaken _ _ (λ z s e. at (sym s ∙ e)) more same) after),
        replaced-IsKeyed xs y ys more m same k.1,
      )

module _ {Vector : Type 0} where
  pub chunks_of-append :
      (id : Uuid) (xs ys : List (Chunk Vector))
      → chunks_of id (xs ++ ys) ≡ chunks_of id xs ++ chunks_of id ys
  chunks_of-append id [] ys = refl
  chunks_of-append id (x ∷ xs) ys = ground (arith, chunks_of-append id xs ys)

  pub chunks_of-rows_of_ne :
      (id other : Uuid) (ids : ℕ → Uuid) (n : ℕ) (chunks : List (ChunkIn Vector))
      → (other ≡ id → ⊥)
      → chunks_of id (rows_of ids other n chunks) ≡ []
  chunks_of-rows_of_ne id other ids n [] ne = refl
  chunks_of-rows_of_ne id other ids n (c ∷ chunks) ne =
      ground (arith, chunks_of-rows_of_ne id other ids (suc n) chunks ne)

  pub chunks_of-rows_of :
      (id : Uuid) (ids : ℕ → Uuid) (n : ℕ) (chunks : List (ChunkIn Vector))
      → map stored_draft (chunks_of id (rows_of ids id n chunks)) ≡ map draft_of chunks
  chunks_of-rows_of id ids n [] = refl
  chunks_of-rows_of id ids n (c ∷ chunks) =
      let same : (id == id) ≡ true = (==_iff id id).1 refl in
      rw same (ap (λ ds. draft_of c ∷ ds) (chunks_of-rows_of id ids (suc n) chunks))

  -- deletions of another document's chunks, and of its own
  pub chunks_of-select_ne :
      (id other : Uuid) (chunks : List (Chunk Vector))
      → (other ≡ id → ⊥)
      → chunks_of id (select (λ c. not (c.document_id == other)) chunks) ≡ chunks_of id chunks
  chunks_of-select_ne id other [] ne = refl
  chunks_of-select_ne id other (c ∷ chunks) ne = ground (
    arith,
    chunks_of-select_ne id other chunks ne,
    ==_iff c.document_id id,
    ==_iff c.document_id other,
  )

  pub chunks_of-select_self :
      (id : Uuid) (chunks : List (Chunk Vector))
      → chunks_of id (select (λ c. not (c.document_id == id)) chunks) ≡ []
  chunks_of-select_self id [] = refl
  chunks_of-select_self id (c ∷ chunks) = ground (arith, chunks_of-select_self id chunks)
