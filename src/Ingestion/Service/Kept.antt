-- ===== src/Ingestion/Service/Kept.antt =====
-- Each step keeps the documents and the tasks consistent
-- (backend/src/sovereign_rag/ingestion/service.py).
use sovereign_rag.Base.{
  ℕ, ◌==◌, ==_iff, ◌≡◌, refl, sym, ◌∙◌, ap, subst, inl, inr, Option, none, some, List, [], ◌∷◌,
  ◌++◌, append-nil, map, Bool-cases, arith, Every, Every-append, Every-weaken, IsKeyed,
}
use sovereign_rag.Text.{Text}
use sovereign_rag.Store.{Uuid, ChunkIn}
use sovereign_rag.Tables.{Document, ready, Chunk, chunks_of, update_document}
use sovereign_rag.Pgvector.Hidden.{rows_of}
use sovereign_rag.Ingestion.Service.State.{Stage, adding, flipping, Task}
use sovereign_rag.Ingestion.Service.Prepare.{IngestDeps}
use sovereign_rag.Ingestion.Service.Batches.{draft_of, IsPrepared}
use sovereign_rag.Ingestion.Service.Consistent.{
  stored_draft, IsComplete, AtStage, IsRunning, Runs, IsConsistent, Every-split, others_than,
  chunks_of-append, chunks_of-rows_of, chunks_of-rows_of_ne,
}
use sovereign_rag.Ingestion.Service.Steps.{in_stage}

module _ {W Vector : Type 0} (deps : IngestDeps W Vector) where
  -- what a document has with some chunks, it has with others where its own are the same
  module _ (d : Document) (chunks chunks' : List (Chunk Vector))
      (same : chunks_of d.id chunks' ≡ chunks_of d.id chunks) where
    IsComplete-same : IsComplete deps d chunks → IsComplete deps d chunks'
    IsComplete-same c = record {
      data_bytes = c.data_bytes;
      content_type = c.content_type;
      same_digest = c.same_digest;
      prepared =
          subst (λ rows. IsPrepared deps c.data_bytes c.content_type (map stored_draft rows) d.meta)
            (sym same) c.prepared;
    }

    Runs-same : (task : Task Vector) → Runs deps d chunks task → Runs deps d chunks' task
    Runs-same task r e =
        let running = r e in
        record {
          busy = running.busy;
          same_digest = running.same_digest;
          at_stage = subst (AtStage deps task task.stage) (sym same) running.at_stage;
        }

    pub IsConsistent-same :
        (tasks : List (Task Vector))
        → IsConsistent deps tasks chunks d
        → IsConsistent deps tasks chunks' d
    IsConsistent-same tasks c = record {
      complete = λ e. IsComplete-same (c.complete e);
      runs = Every-weaken _ _ Runs-same tasks c.runs;
    }

  module _ (before : List (Task Vector)) (task : Task Vector) (after : List (Task Vector))
      (single : IsKeyed (λ t. t.document_id) (before ++ task ∷ after)) where
    -- the task moves on, and the others are as before
    moved :
        (next : Option (Stage Vector)) (d : Document) (chunks : List (Chunk Vector))
        → IsConsistent deps (before ++ task ∷ after) chunks d
        → ((stage : Stage Vector)
            → next ≡ some stage
            → Runs deps d chunks (record task { stage = stage }))
        → Every (Runs deps d chunks) (before ++ (in_stage task next ++ after))
    moved next d chunks c go =
        let (left, at, right) = Every-split (Runs deps d chunks) before task after c.runs in
        Every-append _ before _ left (Every-append _ (in_stage task next) after (own next go) right)
      where
        own :
            (o : Option (Stage Vector))
            → ((stage : Stage Vector)
                → o ≡ some stage
                → Runs deps d chunks (record task { stage = stage }))
            → Every (Runs deps d chunks) (in_stage task o)
        own none go = tt
        own (some stage) go = (go stage refl, tt)

    abbrev At : Document → List (Chunk Vector) → Type 0
    At d chunks = Runs deps d chunks task

    at_task :
        (d : Document) (chunks : List (Chunk Vector))
        → IsConsistent deps (before ++ task ∷ after) chunks d
        → At d chunks
    at_task d chunks c =
        let (left, at, right) = Every-split (Runs deps d chunks) before task after c.runs in at

    -- the tables are as they were
    pub stays :
        (next : Option (Stage Vector)) (documents : List Document) (chunks : List (Chunk Vector))
        → ((stage : Stage Vector)
            → next ≡ some stage
            → (d : Document) → IsRunning deps d chunks task
            → AtStage deps task stage (chunks_of d.id chunks))
        → Every (IsConsistent deps (before ++ task ∷ after) chunks) documents
        → Every (IsConsistent deps (before ++ (in_stage task next ++ after)) chunks) documents
    stays next documents chunks go h =
        Every-weaken _ _
          (λ d c. record {
            complete = c.complete;
            runs = moved next d chunks c (λ stage e same.
                let r = at_task d chunks c same in
                record { busy = r.busy; same_digest = r.same_digest; at_stage = go stage e d r });
          })
          documents h

    -- what a task that is done leaves: nobody else works on its document
    pub alone :
        (d : Document) (chunks : List (Chunk Vector))
        → task.document_id ≡ d.id
        → Every (Runs deps d chunks) (before ++ ([] ++ after))
    alone d chunks same =
        let (left, right) = others_than (λ t. t.document_id) before task after single in
        let apart = λ (t : Task Vector) (n : t.document_id ≡ task.document_id → ⊥).
          (λ (e : t.document_id ≡ d.id).
            absurd {A = IsRunning deps d chunks t} (n (e ∙ sym same))) in
        Every-append _ before after (Every-weaken _ _ apart before left)
          (Every-weaken _ _ apart after right)

    -- the batch is written: the rows of the document are its drafts
    pub stored :
        (batch : List (ChunkIn Vector)) (meta : List (Text × Text)) (ids : ℕ → Uuid)
        (documents : List Document) (chunks : List (Chunk Vector))
        → task.stage ≡ adding batch meta
        → Every (IsConsistent deps (before ++ task ∷ after) chunks) documents
        → Every
            (IsConsistent deps
              (before ++ (in_stage task (some (flipping meta)) ++ after))
              (chunks ++ rows_of ids task.document_id 0 batch))
            documents
    stored batch meta ids documents chunks at h =
        Every-weaken _ _
          (λ d c. elim (Bool-cases (task.document_id == d.id)) [
            | inl e ↦ own d c ((==_iff task.document_id d.id).0 e)
            | inr e ↦ other d c (λ same. absurd (ground (arith, ==_iff task.document_id d.id)))
          ])
          documents h
      where
        more : List (Chunk Vector)
        more = chunks ++ rows_of ids task.document_id 0 batch

        other :
            (d : Document)
            → IsConsistent deps (before ++ task ∷ after) chunks d
            → (task.document_id ≡ d.id → ⊥)
            → IsConsistent deps (before ++ (in_stage task (some (flipping meta)) ++ after)) more d
        other d c ne =
            let kept : chunks_of d.id more ≡ chunks_of d.id chunks =
              chunks_of-append d.id chunks _
              ∙ ap (λ rows. chunks_of d.id chunks ++ rows)
                  (chunks_of-rows_of_ne d.id task.document_id ids 0 batch ne)
              ∙ append-nil _ in
            let c' = IsConsistent-same d chunks more kept (before ++ task ∷ after) c in
            record {
              complete = c'.complete;
              runs = moved (some (flipping meta)) d more c' (λ stage e same. absurd (ne same));
            }

        own :
            (d : Document)
            → IsConsistent deps (before ++ task ∷ after) chunks d
            → task.document_id ≡ d.id
            → IsConsistent deps (before ++ (in_stage task (some (flipping meta)) ++ after)) more d
        own d c same =
            let r = at_task d chunks c same in
            let begun = subst (λ st. AtStage deps task st (chunks_of d.id chunks)) at r.at_stage in
            let rows : map stored_draft (chunks_of d.id more) ≡ map draft_of batch =
              ap (map stored_draft) (chunks_of-append d.id chunks _)
              ∙ (rw begun.0 (
                  subst
                    (λ i.
                      map stored_draft (chunks_of d.id (rows_of ids i 0 batch))
                      ≡ map draft_of batch)
                    (sym same) (chunks_of-rows_of d.id ids 0 batch))) in
            let (left, right) = others_than (λ t. t.document_id) before task after single in
            let apart = λ (t : Task Vector) (n : t.document_id ≡ task.document_id → ⊥).
              (λ (e : t.document_id ≡ d.id).
                absurd {A = IsRunning deps d more t} (n (e ∙ sym same))) in
            record {
              complete = λ e. absurd (cc (e, r.busy));
              runs = Every-append _ before _ (Every-weaken _ _ apart before left) (
                (λ e. record {
                  busy = r.busy;
                  same_digest = r.same_digest;
                  at_stage =
                      subst (λ ds. IsPrepared deps task.data_bytes task.content_type ds meta)
                        (sym rows) begun.1;
                }),
                Every-weaken _ _ apart after right,
              );
            }

    -- the document of the task is rewritten, and the task ends
    pub ended :
        (f : Document → Document) (documents : List Document) (chunks : List (Chunk Vector))
        → ((d : Document) → (f d).id ≡ d.id)
        → ((d : Document)
            → IsRunning deps d chunks task
            → (f d).status ≡ ready
            → IsComplete deps (f d) chunks)
        → Every (IsConsistent deps (before ++ task ∷ after) chunks) documents
        → Every
            (IsConsistent deps (before ++ ([] ++ after)) chunks)
            (update_document task.document_id f documents)
    ended f [] chunks named done h = tt
    ended f (d ∷ documents) chunks named done h = (
      elim (Bool-cases (d.id == task.document_id)) [
        | inl e ↦
            let same : task.document_id ≡ d.id = sym ((==_iff d.id task.document_id).0 e) in
            rw e (record {
              complete = done d (at_task d chunks h.0 same);
              runs = alone (f d) chunks (same ∙ sym (named d));
            })
        | inr e ↦ rw e (record {
          complete = h.0.complete;
          runs = moved none d chunks h.0 (λ stage q. absurd (cc q));
        })
      ],
      ended f documents chunks named done h.1,
    )
