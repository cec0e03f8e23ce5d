-- ===== src/Audits/Service.antt =====
-- `AuditService` (backend/src/sovereign_rag/audits.py).
use sovereign_rag.Base.{ℕ, Option, none, some, List, [], ◌∷◌, ◌++◌, Bool, true, false, take, length}
use sovereign_rag.Text.{Text}
use sovereign_rag.Effects.{Fault, cancelled, Outcome, ok, raised, Run, pure, raise, ◌>>=◌}
use sovereign_rag.Json.{JsonModule}
use sovereign_rag.Llm.{LlmClient}
use sovereign_rag.Store.{Uuid, EmbeddingClient, VectorStore}
use sovereign_rag.Compliance.State.{AuditState, AuditDeps}
use sovereign_rag.Compliance.Nodes.{ainvoke}
use sovereign_rag.Audits.State.{
  running, failed, AuditRow, new_row, has_active, load, update, set_status, set_requirements,
  append_finding, set_complete, interrupted,
}

-- an entry of the audit trail: actor, action, object and detail
pub data TrailEvent : Type 0 where
  -- audit.start, with the regulation's file name
  audit_start : Text → Uuid → Text → TrailEvent
  -- audit.complete, with the number of findings
  audit_complete : Text → Uuid → ℕ → TrailEvent

-- the world, the tables, and the tasks that were created
pub record Jobs (W : Type 0) : Type 0 where
  pub world : W
  pub audits : List AuditRow
  -- the contents of a document's chunks in their order (`_REGULATION_CHUNKS`)
  pub chunks : Uuid → List Text
  pub trail : List TrailEvent
  pub tasks : List (Uuid × Text)

pub record JobDeps (W Vector Score : Type 0) : Type 0 where
  pub llm : LlmClient W
  pub embedder : EmbeddingClient W Vector
  pub store : VectorStore W Vector Score
  pub json : JsonModule
  pub uuid4 : W → Uuid × W
  -- does a connection of the pool come, and do its statements run
  pub statement : Run W (Unit {0})
  -- str(exc)
  pub str_of_fault : Fault → Text

module _ {W : Type 0} where
  -- a component that does not know the tables
  abbrev pub on_jobs : {A : Type 0} → Run W A → Run (Jobs W) A
  on_jobs m s = let (r, w) = m s.world in (r, record s { world = w })

  abbrev pub run_statement :
      {A : Type 0} → (Jobs W → A × Jobs W) → Outcome (Unit {0}) → Run (Jobs W) A
  run_statement f (ok _) s = let (a, s') = f s in (ok a, s')
  run_statement f (raised e) s = (raised e, s)

module _ {W Vector Score : Type 0} (deps : JobDeps W Vector Score) where
  -- the statements of one connection: where one raises, none is committed
  unfoldable pub execute : {A : Type 0} → (Jobs W → A × Jobs W) → Run (Jobs W) A
  execute f s = let (r, w) = deps.statement s.world in run_statement f r (record s { world = w })

  abbrev pub change : Uuid → (AuditRow → AuditRow) → Jobs W → Unit {0} × Jobs W
  change id set s = (tt, record s { audits = update id set s.audits })

  -- the transaction of `launch`: nothing is inserted beside an active audit
  abbrev pub insert_unless : Bool → Uuid → Text → Uuid → Text → Jobs W → Option Uuid × Jobs W
  insert_unless true id owner_id regulation_id filename s = (none, s)
  insert_unless false id owner_id regulation_id filename s = (
    some id,
    record s {
      audits = s.audits ++ new_row id owner_id regulation_id filename ∷ [];
      trail = s.trail ++ audit_start owner_id id filename ∷ [];
    },
  )

  -- `_start_task`
  abbrev pub start_task : Option Uuid → Text → Run (Jobs W) (Option Uuid)
  start_task none owner_id s = (ok none, s)
  start_task (some id) owner_id s =
      (ok (some id), record s { tasks = s.tasks ++ (id, owner_id) ∷ [] })

  unfoldable pub launch : Text → Uuid → Text → Run (Jobs W) (Option Uuid)
  unfolding execute
  launch owner_id regulation_id filename = do
    audit_id ← λ s. let (id, w) = deps.uuid4 s.world in (ok id, record s { world = w })
    started ←
        execute λ s.
          insert_unless (has_active owner_id s.audits) audit_id owner_id regulation_id filename s
    start_task started owner_id

  unfoldable pub resume_interrupted : Run (Jobs W) ℕ
  unfolding execute
  resume_interrupted = do
    rows ← execute λ s. (interrupted s.audits, s)
    λ s. (ok (length rows), record s { tasks = s.tasks ++ rows })

  -- the `AuditDeps` of `_run`, with its two callbacks
  unfoldable pub audit_deps : Uuid → Text → AuditDeps (Jobs W) Vector Score
  unfolding execute
  audit_deps audit_id owner_id = record {
    llm = record {
      stream_chat = λ messages s.
          let (stream, w) = deps.llm.stream_chat messages s.world in
          (stream, record s { world = w });
    };
    embedder = record { embed_query = λ q. on_jobs (deps.embedder.embed_query q) };
    store = record { hybrid_search = λ q v user k. on_jobs (deps.store.hybrid_search q v user k) };
    user_id = owner_id;
    on_requirements = λ requirements. execute (change audit_id (set_requirements requirements));
    on_finding = λ finding. execute (change audit_id (append_finding finding));
    json = deps.json;
  }

  -- the first connection of `_run`: the row, the chunks, and the status
  abbrev pub begin : Uuid → Option AuditRow → Jobs W → Option (AuditRow × List Text) × Jobs W
  begin audit_id none s = (none, s)
  begin audit_id (some row) s = (
    some (row, s.chunks row.regulation_id),
    record s { audits = update audit_id (set_status running none) s.audits },
  )

  abbrev pub state_of : AuditRow → List Text → AuditState
  state_of row chunks = record {
    regulation_id = row.regulation_id;
    regulation_text = chunks;
    requirements = row.requirements;
    findings = row.findings;
    summary = [];
  }

  -- the graph and `_COMPLETE`
  abbrev pub assess : Uuid → Text → Option (AuditRow × List Text) → Run (Jobs W) (Unit {0})
  assess audit_id owner_id none = pure tt
  assess audit_id owner_id (some (row, chunks)) = do
    final ← ainvoke (audit_deps audit_id owner_id) (state_of row chunks)
    execute λ s. (
      tt,
      record s {
        audits = update audit_id (set_complete final.summary) s.audits;
        trail = s.trail ++ audit_complete owner_id audit_id (length final.findings) ∷ [];
      },
    )

  -- the `except` clauses of `_run`
  abbrev pub settle : Uuid → Outcome (Unit {0}) → Run (Jobs W) (Unit {0})
  settle audit_id (ok _) = pure tt
  settle audit_id (raised cancelled) = raise cancelled
  settle audit_id (raised e) =
      execute (change audit_id (set_status failed (some (take 500 (deps.str_of_fault e)))))

  -- `_run`
  unfoldable pub run_audit : Uuid → Text → Run (Jobs W) (Unit {0})
  unfolding audit_deps execute
  run_audit audit_id owner_id s =
      let (r, s') =
        (do
          loaded ← execute λ t. begin audit_id (load audit_id t.audits) t
          assess audit_id owner_id loaded)
          s in
      settle audit_id r s'
