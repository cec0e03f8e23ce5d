-- ===== src/Ingestion/Service/Writes.antt =====
-- Uploads, deletions and restarts keep the documents and the tasks consistent
-- (backend/src/sovereign_rag/ingestion/service.py).
use sovereign_rag.Base.{
  ℕ, ◌==◌, ==_iff, ◌≡◌, refl, sym, ◌∙◌, subst, inl, inr, Option, none, some, List, [], ◌∷◌, ◌++◌,
  append-nil, map, true, not, Bool-cases, is_some, if◌then◌else◌, arith, select, Every,
  Every-append, Every-weaken, Every-of, Every-IsIn, IsIn, IsKeyed, append-IsKeyed,
}
use sovereign_rag.Effects.{ok}
use sovereign_rag.Store.{Uuid}
use sovereign_rag.Tables.{
  Document, DocumentStatus, processing, ready, failed, is_failed, Chunk, Tables, chunks_of,
  document_of, update_document, delete_row,
}
use sovereign_rag.Tables.Rows.{select-IsIn, document_of-IsIn}
use sovereign_rag.Ingestion.Service.State.{Upload, Task, update_row}
use sovereign_rag.Ingestion.Service.Uploads.{
  Written, claimed, reclaim_row, reclaim_failed, purge, new_task, new_document, reclaimed_or,
  write_existing, write_new, write_upload, select_by_sha, is_visible,
}
use sovereign_rag.Ingestion.Service.Process.{swept, swept_from, sweep_interrupted}
use sovereign_rag.Ingestion.Service.Prepare.{IngestDeps}
use sovereign_rag.Ingestion.Service.Consistent.{
  IsConsistent, IsSound, chunks_of-select_ne, chunks_of-select_self,
}
use sovereign_rag.Ingestion.Service.Steps.{IsFresh, IsKnown}
use sovereign_rag.Ingestion.Service.Kept.{IsConsistent-same}

chunks_of-fresh :
    {Vector : Type 0} (id : Uuid) (chunks : List (Chunk Vector))
    → Every (λ c. c.document_id ≡ id → ⊥) chunks
    → chunks_of id chunks ≡ []
chunks_of-fresh id [] f = refl
chunks_of-fresh id (c ∷ chunks) f =
    ground (arith, chunks_of-fresh id chunks f.1, f.0, ==_iff c.document_id id)

ok_inj : {A : Type 0} (a b : A) → ok a ≡ ok b → a ≡ b
ok_inj a b e = cc e

is_failed_lem : (s : DocumentStatus) → is_failed s ≡ true → s ≡ failed
is_failed_lem failed e = refl
is_failed_lem ready e = absurd (cc e)
is_failed_lem processing e = absurd (cc e)

module _ {W Vector : Type 0} (deps : IngestDeps W Vector) (t : Tables Vector)
    (tasks : List (Task Vector)) (sound : IsSound deps t tasks) where
  -- what an upload may leave
  abbrev Fine : Written Vector → Type 0
  Fine (answer, t', created) = IsSound deps t' (tasks ++ created)

  nothing_written : IsSound deps t (tasks ++ [])
  nothing_written = rw (append-nil tasks) sound

  -- one more task, for a document that no task works on
  one_more :
      (task : Task Vector)
      → Every (λ x. x.document_id ≡ task.document_id → ⊥) tasks
      → IsKeyed (λ x. x.document_id) (tasks ++ task ∷ [])
  one_more task others =
      append-IsKeyed (λ x. x.document_id) tasks (task ∷ []) sound.single (tt, tt)
        (Every-weaken _ _ (λ x n. ((λ e. n (sym e)), tt)) tasks others)

  module _ (id : Uuid) (up : Upload) (d : Document) (stored : IsIn d t.documents)
      (named : d.id ≡ id) (fails : d.status ≡ failed)
      (digest : Every (λ x. x.id ≡ id → x.sha256 ≡ deps.sha256 up.data_bytes) t.documents) where
    unclaimed : Every (λ task. task.document_id ≡ id → ⊥) tasks
    unclaimed =
        Every-weaken _ _
          (λ task r e. let running = r (e ∙ sym named) in absurd (cc (fails, running.busy))) tasks
          (Every-IsIn (IsConsistent deps tasks t.chunks) d t.documents sound.consistent stored).runs

    abbrev after_purge : List (Chunk Vector)
    after_purge = select (λ c. not (c.document_id == id)) t.chunks

    reclaimed_row :
        (x : Document)
        → IsConsistent deps tasks t.chunks x
        → (x.id ≡ id → x.sha256 ≡ deps.sha256 up.data_bytes)
        → IsConsistent deps
            (tasks ++ new_task id up ∷ [])
            after_purge
            (if x.id == id then claimed x else x)
    reclaimed_row x c k = elim (Bool-cases (x.id == id)) [
      | inl e ↦
          let same : x.id ≡ id = (==_iff x.id id).0 e in
          rw e (record {
            complete = λ q. absurd (cc q);
            runs =
                Every-append _ tasks (new_task id up ∷ [])
                  (Every-weaken _ _ (λ task n q. absurd (n (q ∙ same))) tasks unclaimed)
                  (
                    (λ q. record {
                      busy = refl;
                      same_digest = k same;
                      at_stage =
                          subst (λ i. chunks_of i after_purge ≡ []) (sym same)
                            (chunks_of-select_self id t.chunks);
                    }),
                    tt,
                  );
          })
      | inr e ↦
          let other : id ≡ x.id → ⊥ = λ q. absurd (ground (arith, ==_iff x.id id)) in
          let c' =
            IsConsistent-same deps x t.chunks after_purge
              (chunks_of-select_ne x.id id t.chunks other) tasks c in
          rw e (record {
            complete = c'.complete;
            runs = Every-append _ tasks (new_task id up ∷ []) c'.runs ((λ q. absurd (other q)), tt);
          })
    ]

    reclaimed_rows :
        (documents : List Document)
        → Every (IsConsistent deps tasks t.chunks) documents
        → Every (λ x. x.id ≡ id → x.sha256 ≡ deps.sha256 up.data_bytes) documents
        → Every
            (IsConsistent deps (tasks ++ new_task id up ∷ []) after_purge)
            (update_document id claimed documents)
    reclaimed_rows [] h k = tt
    reclaimed_rows (x ∷ documents) h k = (reclaimed_row x h.0 k.0, reclaimed_rows documents h.1 k.1)

    reclaimed : IsSound deps (purge id (update_row id claimed t)) (tasks ++ new_task id up ∷ [])
    reclaimed = record {
      single = one_more (new_task id up) unclaimed;
      consistent = reclaimed_rows t.documents sound.consistent digest;
    }

  module _ (existing : Document) (up : Upload)
      (known : Every
        (λ x. x.id ≡ existing.id → x.sha256 ≡ deps.sha256 up.data_bytes)
        t.documents) where
    row_found :
        (o : Option Document)
        → document_of existing.id t.documents ≡ o
        → Fine (reclaimed_or existing up (reclaim_row existing.id o t) t)
    row_found none e = nothing_written
    row_found (some d) e = elim (Bool-cases (is_failed d.status)) [
      | inl fails ↦
          let (stored, named) = document_of-IsIn existing.id t.documents d e in
          rw fails (reclaimed existing.id up d stored named (is_failed_lem d.status fails) known)
      | inr lost ↦ rw lost nothing_written
    ]

    write_existing-Fine : Fine (write_existing existing up t)
    unfolding write_existing reclaim_failed
    write_existing-Fine = elim (Bool-cases (not (is_visible existing.id up.owner_id t))) [
      | inl hidden ↦ rw hidden nothing_written
      | inr shown ↦ rw shown (elim (Bool-cases (not (is_failed existing.status))) [
        | inl known_good ↦ rw known_good nothing_written
        | inr fails ↦ rw fails (row_found (document_of existing.id t.documents) refl)
      ])
    ]

  module _ (new_id : Uuid) (now : ℕ) (up : Upload)
      (fresh : IsFresh new_id (record { tables = t; tasks = tasks })) where
    inserted :
        IsSound deps
          (record t {
            documents = t.documents ++ new_document new_id now (deps.sha256 up.data_bytes) up ∷ [];
          })
          (tasks ++ new_task new_id up ∷ [])
    inserted = record {
      single = one_more (new_task new_id up) fresh.of_tasks;
      consistent =
          Every-append _ t.documents _
            (Every-of _ t.documents λ d i.
              let c =
                Every-IsIn (IsConsistent deps tasks t.chunks) d t.documents sound.consistent i in
              record {
                complete = c.complete;
                runs = Every-append _ tasks _ c.runs (
                  (λ q. absurd (
                      Every-IsIn (λ x. x.id ≡ new_id → ⊥) d t.documents fresh.of_documents i
                        (sym q))),
                  tt,
                );
              })
            (
              record {
                complete = λ q. absurd (cc q);
                runs =
                    Every-append _ tasks _
                      (Every-weaken _ _ (λ task n q. absurd (n q)) tasks fresh.of_tasks)
                      (
                        (λ q. record {
                          busy = refl;
                          same_digest = refl;
                          at_stage = chunks_of-fresh new_id t.chunks fresh.of_chunks;
                        }),
                        tt,
                      );
              },
              tt,
            );
    }

    write_new-Fine :
        (r : Written Vector) → write_new new_id now (deps.sha256 up.data_bytes) up t ≡ ok r → Fine r
    unfolding write_new
    write_new-Fine r e =
        elim (Bool-cases (is_some (select_by_sha (deps.sha256 up.data_bytes) t.documents))) [
          | inl taken ↦ absurd (ground arith)
          | inr free ↦ let q : ok _ ≡ ok r = rw free at e in subst Fine (ok_inj _ r q) inserted
        ]

    pub write_upload-IsSound :
        (existing : Option Document) (r : Written Vector)
        → IsKnown (deps.sha256 up.data_bytes) existing t.documents
        → write_upload existing new_id now (deps.sha256 up.data_bytes) up t ≡ ok r
        → Fine r
    unfolding write_upload
    write_upload-IsSound none r k e = write_new-Fine r e
    write_upload-IsSound (some existing) r k e =
        subst Fine (ok_inj _ r e) (write_existing-Fine existing up k)

  pub delete_row-IsSound : (id : Uuid) → IsSound deps (delete_row id t) tasks
  unfolding delete_row
  delete_row-IsSound id = record {
    single = sound.single;
    consistent = Every-of _ _ λ d i.
        let (stored, kept) = select-IsIn (λ x. not (x.id == id)) d t.documents i in
        IsConsistent-same deps d t.chunks _
          (chunks_of-select_ne d.id id t.chunks (λ q. ground (arith, ==_iff d.id id))) tasks
          (Every-IsIn (IsConsistent deps tasks t.chunks) d t.documents sound.consistent stored);
  }

  swept-IsConsistent :
      (d : Document) (s : DocumentStatus)
      → d.status ≡ s
      → IsConsistent deps tasks t.chunks d
      → IsConsistent deps [] t.chunks (swept_from s d)
  swept-IsConsistent d processing e c = record { complete = λ q. absurd (cc q); runs = tt }
  swept-IsConsistent d ready e c = record { complete = c.complete; runs = tt }
  swept-IsConsistent d failed e c = record { complete = c.complete; runs = tt }

  swept_rows :
      (documents : List Document)
      → Every (IsConsistent deps tasks t.chunks) documents
      → Every (IsConsistent deps [] t.chunks) (map swept documents)
  swept_rows [] h = tt
  swept_rows (d ∷ documents) h = (swept-IsConsistent d d.status refl h.0, swept_rows documents h.1)

  pub sweep_interrupted-IsSound : IsSound deps (sweep_interrupted t) []
  sweep_interrupted-IsSound = record {
    single = tt;
    consistent = swept_rows t.documents sound.consistent;
  }
