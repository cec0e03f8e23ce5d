-- ===== src/Ingestion/Service/Reached.antt =====
-- In every order of steps a ready document has the chunks of its file
-- (backend/src/sovereign_rag/ingestion/service.py, and the sweep of backend/src/sovereign_rag/main.py).
use sovereign_rag.Base.{◌≡◌, refl, sym, subst, ◌∷◌, ◌++◌, Every-IsIn, IsIn}
use sovereign_rag.Tables.{Document, ready}
use sovereign_rag.Ingestion.Service.Prepare.{IngestDeps}
use sovereign_rag.Ingestion.Service.Consistent.{IsComplete, IsConsistent, IsSound}
use sovereign_rag.Ingestion.Service.Steps.{
  State, Step, uploads, runs, deletes, shares, restarts, Reach, here, next, StoresWhole,
}
use sovereign_rag.Ingestion.Service.Stages.{IsSound-same, run_stage-IsSound}
use sovereign_rag.Ingestion.Service.Writes.{
  write_upload-IsSound, delete_row-IsSound, sweep_interrupted-IsSound,
}

module _ {W Vector : Type 0} (deps : IngestDeps W Vector) (whole : StoresWhole deps) where
  abbrev Sound : State Vector → Type 0
  Sound s = IsSound deps s.tables s.tasks

  Step-IsSound : (s u : State Vector) → Step deps s u → Sound s → Sound u
  Step-IsSound s u (uploads existing new_id now up answer t created fresh known e same) h =
      subst Sound (sym same) (
        write_upload-IsSound deps s.tables s.tasks h new_id now up fresh existing
          (answer, t, created) known e)
  Step-IsSound s u (runs before task after service listed stored same) h = subst Sound (sym same) (
      run_stage-IsSound deps before task after service whole (
        subst (λ t. IsSound deps t (before ++ task ∷ after)) (sym stored)
          (subst (IsSound deps s.tables) listed h)))
  Step-IsSound s u (deletes id same) h =
      subst Sound (sym same) (delete_row-IsSound deps s.tables s.tasks h id)
  Step-IsSound s u (shares permissions same) h =
      subst Sound (sym same) (IsSound-same deps s.tables _ s.tasks refl refl h)
  Step-IsSound s u (restarts same) h =
      subst Sound (sym same) (sweep_interrupted-IsSound deps s.tables s.tasks h)

  Reach-IsSound : {s u : State Vector} → Sound s → Reach deps s u → Sound u
  Reach-IsSound h here = h
  Reach-IsSound h (next r st) = Step-IsSound _ _ st (Reach-IsSound h r)

  -- Let the store write a batch whole or not at all, and let no commit of an upload fail. Start
  -- with a consistent state, such as an empty one, and let uploads, re-uploads of failed files,
  -- the stages of any number of background tasks, deletions, shares and restarts happen in any
  -- order and any number. Then the stored chunks of every ready document are the drafts that
  -- chunking makes of a file with the document's digest: all of them, in their order, each once,
  -- with its index, content, section and page; and the document's metadata are that file's.
  pub Reach-IsComplete :
      {s u : State Vector}
      → Sound s
      → Reach deps s u
      → (d : Document) → IsIn d u.tables.documents
      → d.status ≡ ready
      → IsComplete deps d u.tables.chunks
  Reach-IsComplete {s} {u} h r d stored e =
      (Every-IsIn (IsConsistent deps u.tasks u.tables.chunks) d u.tables.documents
          (Reach-IsSound h r).consistent stored).complete
        e
