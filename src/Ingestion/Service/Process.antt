-- ===== src/Ingestion/Service/Process.antt =====
-- The stages of a background task, the refresh of the statistics, and the sweep at boot
-- (`_process` and `refresh_lexeme_stats` of backend/src/sovereign_rag/ingestion/service.py, and
-- backend/src/sovereign_rag/main.py).
use sovereign_rag.Base.{
  ℕ, zero, suc, ◌-◌, Option, none, some, map, Bool, false, not, ◌&&◌, ltb, if◌then◌else◌, take,
}
use sovereign_rag.Text.{codes}
use sovereign_rag.Effects.{
  Fault, cancelled, provider_error, extraction_error, value_error, other_error, Outcome, ok, raised,
}
use sovereign_rag.Tables.{Document, DocumentStatus, processing, ready, failed, Tables}
use sovereign_rag.Tables.Session.{transaction}
use sovereign_rag.Ingestion.Service.Prepare.{IngestDeps, prepare}
use sovereign_rag.Ingestion.Service.State.{
  Stage, computing, adding, flipping, failing, Task, Service, set_ready, set_failed, update_row,
  in_world, on_tables,
}

abbrev pub lexeme_refresh_min_interval : ℕ
lexeme_refresh_min_interval = 60_000

-- `_sweep_interrupted_documents` of main.py
abbrev pub swept_from : DocumentStatus → Document → Document
swept_from processing d = set_failed (codes "interrupted by restart") d
swept_from ready d = d
swept_from failed d = d

abbrev pub swept : Document → Document
swept d = swept_from d.status d

abbrev pub sweep_interrupted : {Vector : Type 0} → Tables Vector → Tables Vector
sweep_interrupted t = record t { documents = map swept t.documents }

-- `now - last < 60`, where no refresh yet is -inf
abbrev pub too_soon : Bool → ℕ → Option ℕ → Bool
too_soon force now none = false
too_soon force now (some last) = not force && ltb (now - last) lexeme_refresh_min_interval

module _ {W Vector : Type 0} (deps : IngestDeps W Vector) where
  -- the two tests and the refresh, which swallows every Exception
  abbrev pub refreshed :
      Outcome (Unit {0}) → Service W Vector → Outcome (Unit {0}) × Service W Vector
  refreshed (ok _) s = (
    ok tt,
    record s {
      site = record s.site {
        tables = record s.site.tables { lexeme_df = deps.recount s.site.tables };
      };
    },
  )
  refreshed (raised cancelled) s = (raised cancelled, s)
  refreshed (raised e) s = (ok tt, s)

  unfoldable pub refresh_lexeme_stats :
      Bool → Service W Vector → Outcome (Unit {0}) × Service W Vector
  refresh_lexeme_stats force s =
      let (now, s) = in_world deps.monotonic s in
      if too_soon force now s.last_lexeme_refresh
      then (ok tt, s)
      else let (r, s') = in_world deps.connect (record s { last_lexeme_refresh = some now }) in
        refreshed r s'

  -- `except Exception`, which lets a cancellation through
  abbrev pub handled : Fault → Option (Stage Vector)
  handled cancelled = none
  handled (provider_error m) = some (failing (take 500 (deps.str_of_fault (provider_error m))))
  handled (extraction_error m) = some (failing (take 500 (deps.str_of_fault (extraction_error m))))
  handled value_error = some (failing (take 500 (deps.str_of_fault value_error)))
  handled (other_error m) = some (failing (take 500 (deps.str_of_fault (other_error m))))

  abbrev pub then_stage :
      {A : Type 0} → Outcome A → (A → Option (Stage Vector)) → Option (Stage Vector)
  then_stage (ok a) f = f a
  then_stage (raised e) f = handled e

  -- behind `_MARK_READY`
  abbrev pub behind_flip :
      Outcome (Unit {0}) → Service W Vector → Option (Stage Vector) × Service W Vector
  behind_flip (raised e) s = (handled e, s)
  behind_flip (ok _) s = (none, (refresh_lexeme_stats false s).1)

  -- one stage, with the next one; `none` where the task has ended
  unfoldable pub run_stage :
      Task Vector → Stage Vector → Service W Vector → Option (Stage Vector) × Service W Vector
  unfolding transaction prepare refresh_lexeme_stats
  run_stage task computing s =
      let (r, s) = in_world (prepare deps task.data_bytes task.content_type) s in
      (then_stage r (λ p. some (adding p.0 p.1)), s)
  run_stage task (adding chunks meta) s =
      let (r, s) = on_tables (deps.add_chunks task.document_id chunks) s in
      (then_stage r (λ _. some (flipping meta)), s)
  run_stage task (flipping meta) s =
      let (r, s) =
        on_tables
          (transaction deps.server λ t. ok (tt, update_row task.document_id (set_ready meta) t))
          s in
      behind_flip r s
  run_stage task (failing error) s =
      let (r, s) =
        on_tables
          (transaction deps.server λ t. ok (tt, update_row task.document_id (set_failed error) t))
          s in
      (none, s)

  -- the stages of a task in a row, at most so many
  unfoldable pub run_stages :
      ℕ
      → Task Vector
      → Option (Stage Vector)
      → Service W Vector
      → Option (Stage Vector) × Service W Vector
  unfolding run_stage
  run_stages fuel task none s = (none, s)
  run_stages zero task (some stage) s = (some stage, s)
  run_stages (suc fuel) task (some stage) s =
      let (next, s') = run_stage task stage s in run_stages fuel task next s'

  -- `_process` without an interruption
  unfoldable pub process : Task Vector → Service W Vector → Option (Stage Vector) × Service W Vector
  unfolding run_stages
  process task s = run_stages 4 task (some computing) s
