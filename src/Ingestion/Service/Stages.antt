-- ===== src/Ingestion/Service/Stages.antt =====
-- Each stage of a task keeps the documents and the tasks consistent (`_process` of
-- backend/src/sovereign_rag/ingestion/service.py).
use sovereign_rag.Base.{
  take, ◌≡◌, refl, sym, subst, inl, inr, Option, none, some, List, [], ◌∷◌, ◌++◌, Bool, false,
  Bool-cases, arith, Every, IsKeyed,
}
use sovereign_rag.Text.{Text}
use sovereign_rag.Effects.{
  Fault, cancelled, provider_error, extraction_error, value_error, other_error, Outcome, ok, raised,
  Allowed, Anything,
}
use sovereign_rag.Store.{ChunkIn}
use sovereign_rag.Tables.{Document, ready, Chunk, Tables, chunks_of}
use sovereign_rag.Tables.Session.{begin, Site, transaction}
use sovereign_rag.Ingestion.Service.Process.{
  refreshed, handled, then_stage, behind_flip, refresh_lexeme_stats, too_soon, run_stage,
}
use sovereign_rag.Ingestion.Service.State.{
  Stage, computing, adding, flipping, failing, Task, Service, set_ready, set_failed, update_row,
}
use sovereign_rag.Ingestion.Service.Prepare.{IngestDeps}
use sovereign_rag.Ingestion.Service.Batches.{Prepared, prepare-IsPrepared}
use sovereign_rag.Ingestion.Service.Consistent.{
  IsComplete, AtStage, IsRunning, IsConsistent, IsSound, replaced-IsKeyed,
}
use sovereign_rag.Ingestion.Service.Steps.{in_stage, Stores, StoresWhole}
use sovereign_rag.Ingestion.Service.Kept.{stays, stored, ended}

module _ {W Vector : Type 0} (deps : IngestDeps W Vector) where
  -- only the documents and the chunks matter
  pub IsSound-same :
      (t t' : Tables Vector) (tasks : List (Task Vector))
      → t'.documents ≡ t.documents
      → t'.chunks ≡ t.chunks
      → IsSound deps t tasks
      → IsSound deps t' tasks
  IsSound-same t t' tasks d c h = record {
    single = h.single;
    consistent =
        subst (λ cs. Every (IsConsistent deps tasks cs) t'.documents) (sym c)
          (subst (λ ds. Every (IsConsistent deps tasks t.chunks) ds) (sym d) h.consistent);
  }

  -- the refresh leaves the documents and the chunks
  abbrev pub Leaves : Service W Vector → Service W Vector → Type 0
  Leaves s s' =
      (s'.site.tables.documents ≡ s.site.tables.documents)
      × (s'.site.tables.chunks ≡ s.site.tables.chunks)

  refreshed-Leaves :
      (r : Outcome (Unit {0})) (s : Service W Vector) → Leaves s (refreshed deps r s).1
  refreshed-Leaves (ok _) s = (refl, refl)
  refreshed-Leaves (raised cancelled) s = (refl, refl)
  refreshed-Leaves (raised value_error) s = (refl, refl)
  refreshed-Leaves (raised (provider_error m)) s = (refl, refl)
  refreshed-Leaves (raised (extraction_error m)) s = (refl, refl)
  refreshed-Leaves (raised (other_error m)) s = (refl, refl)

  pub refresh_lexeme_stats-Leaves :
      (force : Bool) (s : Service W Vector) → Leaves s (refresh_lexeme_stats deps force s).1
  unfolding refresh_lexeme_stats
  refresh_lexeme_stats-Leaves force s =
      elim (Bool-cases (too_soon force (deps.monotonic s.site.world).0 s.last_lexeme_refresh)) [
        | inl early ↦ rw early (refl, refl)
        | inr due ↦ rw due (refreshed-Leaves _ _)
      ]

  -- the handler of `_process` goes on to `_MARK_FAILED` or lets the task end
  handled_lem :
      (task : Task Vector) (e : Fault) (stage : Stage Vector) (rows : List (Chunk Vector))
      → handled deps e ≡ some stage
      → AtStage deps task stage rows
  handled_lem task cancelled stage rows q = absurd (cc q)
  handled_lem task value_error stage rows q =
      let f : failing (take 500 (deps.str_of_fault value_error)) ≡ stage = ground arith in
      subst (λ st. AtStage deps task st rows) f tt
  handled_lem task (provider_error m) stage rows q =
      let f : failing (take 500 (deps.str_of_fault (provider_error m))) ≡ stage = ground arith in
      subst (λ st. AtStage deps task st rows) f tt
  handled_lem task (extraction_error m) stage rows q =
      let f : failing (take 500 (deps.str_of_fault (extraction_error m))) ≡ stage = ground arith in
      subst (λ st. AtStage deps task st rows) f tt
  handled_lem task (other_error m) stage rows q =
      let f : failing (take 500 (deps.str_of_fault (other_error m))) ≡ stage = ground arith in
      subst (λ st. AtStage deps task st rows) f tt

  computed_lem :
      (task : Task Vector) (r : Outcome (List (ChunkIn Vector) × List (Text × Text)))
      (stage : Stage Vector) (rows : List (Chunk Vector))
      → Allowed (Prepared deps task.data_bytes task.content_type) Anything r
      → then_stage deps r (λ p. some (adding p.0 p.1)) ≡ some stage
      → rows ≡ []
      → AtStage deps task stage rows
  computed_lem task (raised e) stage rows p q n = handled_lem task e stage rows q
  computed_lem task (ok (chunks, meta)) stage rows p q n =
      let f : adding chunks meta ≡ stage = ground arith in
      subst (λ st. AtStage deps task st rows) f (n, p)

  module _ (before : List (Task Vector)) (task : Task Vector) (after : List (Task Vector)) where
    abbrev tasks_in : Option (Stage Vector) → List (Task Vector)
    tasks_in next = before ++ (in_stage task next ++ after)

    single_lem :
        (next : Option (Stage Vector))
        → IsKeyed (λ t. t.document_id) (before ++ task ∷ after)
        → IsKeyed (λ t. t.document_id) (tasks_in next)
    single_lem none k = replaced-IsKeyed (λ t. t.document_id) before task after [] tt tt k
    single_lem (some stage) k =
        replaced-IsKeyed (λ t. t.document_id) before task after (record task { stage = stage } ∷ [])
          (tt, tt) (refl, tt) k

    -- a stage that does not write
    unwritten :
        (t : Tables Vector) (next : Option (Stage Vector))
        → ((stage : Stage Vector)
            → next ≡ some stage
            → (d : Document) → IsRunning deps d t.chunks task
            → AtStage deps task stage (chunks_of d.id t.chunks))
        → IsSound deps t (before ++ task ∷ after)
        → IsSound deps t (tasks_in next)
    unwritten t next go h = record {
      single = single_lem next h.single;
      consistent = stays deps before task after h.single next t.documents t.chunks go h.consistent;
    }

    added :
        (batch : List (ChunkIn Vector)) (meta : List (Text × Text)) (s : Site W Vector)
        (r : Outcome (Unit {0})) (s' : Site W Vector)
        → task.stage ≡ adding batch meta
        → Stores deps task.document_id batch s (r, s')
        → IsSound deps s.tables (before ++ task ∷ after)
        → IsSound deps s'.tables (tasks_in (then_stage deps r (λ _. some (flipping meta))))
    added batch meta s (raised e) s' at w h =
        subst (λ t. IsSound deps t (tasks_in (handled deps e))) (sym w)
          (unwritten s.tables (handled deps e)
            (λ stage q d r. handled_lem task e stage (chunks_of d.id s.tables.chunks) q) h)
    added batch meta s (ok _) s' at (ids, w) h =
        subst (λ t. IsSound deps t (tasks_in (some (flipping meta)))) (sym w)
          (record {
            single = single_lem (some (flipping meta)) h.single;
            consistent =
                stored deps before task after h.single batch meta ids s.tables.documents
                  s.tables.chunks at h.consistent;
          })

    -- the rewritten row of the document
    rewritten :
        (f : Document → Document) (t : Tables Vector)
        → ((d : Document) → (f d).id ≡ d.id)
        → ((d : Document)
            → IsRunning deps d t.chunks task
            → (f d).status ≡ ready
            → IsComplete deps (f d) t.chunks)
        → IsSound deps t (before ++ task ∷ after)
        → IsSound deps (update_row task.document_id f t) (tasks_in none)
    rewritten f t named done h = record {
      single = single_lem none h.single;
      consistent =
          ended deps before task after h.single f t.documents t.chunks named done h.consistent;
    }

    set_ready-IsComplete :
        (meta : List (Text × Text)) (chunks : List (Chunk Vector))
        → task.stage ≡ flipping meta
        → (d : Document) → IsRunning deps d chunks task
        → (set_ready meta d).status ≡ ready
        → IsComplete deps (set_ready meta d) chunks
    set_ready-IsComplete meta chunks at d r e = record {
      data_bytes = task.data_bytes;
      content_type = task.content_type;
      same_digest = r.same_digest;
      prepared = subst (λ st. AtStage deps task st (chunks_of d.id chunks)) at r.at_stage;
    }

    flipped :
        (meta : List (Text × Text)) (service : Service W Vector) (w : W) (r : Outcome (Unit {0}))
        → task.stage ≡ flipping meta
        → IsSound deps service.site.tables (before ++ task ∷ after)
        → let (q, site) =
            begin r
              (λ t. ok (tt, update_row task.document_id (set_ready meta) t))
              (record service.site { world = w }) in
          let (next, service') = behind_flip deps q (record service { site = site }) in
          IsSound deps service'.site.tables (tasks_in next)
    flipped meta service w (raised e) at h =
        unwritten service.site.tables (handled deps e)
          (λ stage q d r. handled_lem task e stage (chunks_of d.id service.site.tables.chunks) q) h
    flipped meta service w (ok _) at h =
        let t = service.site.tables in
        let same = refresh_lexeme_stats-Leaves false (record service {
          site = record { world = w; tables = update_row task.document_id (set_ready meta) t };
        }) in
        IsSound-same (update_row task.document_id (set_ready meta) t) _ (tasks_in none) same.0
          same.1
          (rewritten (set_ready meta) t (λ d. refl) (set_ready-IsComplete meta t.chunks at) h)

    marked :
        (error : Text) (service : Service W Vector) (w : W) (r : Outcome (Unit {0}))
        → IsSound deps service.site.tables (before ++ task ∷ after)
        → let (q, site) =
            begin r
              (λ t. ok (tt, update_row task.document_id (set_failed error) t))
              (record service.site { world = w }) in
          IsSound deps site.tables (tasks_in none)
    marked error service w (raised e) h =
        unwritten service.site.tables none (λ stage q. absurd (cc q)) h
    marked error service w (ok _) h =
        rewritten (set_failed error) service.site.tables (λ d. refl) (λ d r e. absurd (cc e)) h

    at_stage :
        (stage : Stage Vector) (service : Service W Vector)
        → StoresWhole deps
        → task.stage ≡ stage
        → IsSound deps service.site.tables (before ++ task ∷ after)
        → let (next, service') = run_stage deps task stage service in
          IsSound deps service'.site.tables (tasks_in next)
    unfolding run_stage transaction
    at_stage computing service whole at h =
        unwritten service.site.tables _
          (λ stage q d r.
            computed_lem task _ stage (chunks_of d.id service.site.tables.chunks)
              ((prepare-IsPrepared deps task.data_bytes task.content_type).at service.site.world) q
              (subst (λ st. AtStage deps task st (chunks_of d.id service.site.tables.chunks)) at
                r.at_stage))
          h
    at_stage (adding batch meta) service whole at h =
        added batch meta service.site _ _ at (whole task.document_id batch service.site) h
    at_stage (flipping meta) service whole at h =
        flipped meta service _ (deps.server.statement service.site.world).0 at h
    at_stage (failing error) service whole at h =
        marked error service _ (deps.server.statement service.site.world).0 h

    pub run_stage-IsSound :
        (service : Service W Vector)
        → StoresWhole deps
        → IsSound deps service.site.tables (before ++ task ∷ after)
        → let (next, service') = run_stage deps task task.stage service in
          IsSound deps service'.site.tables (tasks_in next)
    run_stage-IsSound service whole h = at_stage task.stage service whole refl h
