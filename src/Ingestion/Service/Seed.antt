-- ===== src/Ingestion/Service/Seed.antt =====
-- `wait_idle` and `seed_demo` (backend/src/sovereign_rag/ingestion/service.py).
use sovereign_rag.Base.{
  ℕ, Option, none, some, List, [], ◌∷◌, ◌++◌, ◌&&◌, if◌then◌else◌, exists_in, is_some, ◌==◌,
}
use sovereign_rag.Text.{Text, codes, same_text}
use sovereign_rag.Effects.{other_error, Outcome, ok, raised}
use sovereign_rag.Store.{Uuid}
use sovereign_rag.Tables.{Document, Tables, document_of}
use sovereign_rag.Tables.Session.{transaction}
use sovereign_rag.Paths.{suffix, content_type_of}
use sovereign_rag.Ingestion.Extract.Formats.{Bytes}
use sovereign_rag.Ingestion.Service.State.{
  Registered, registered, duplicate_content, Task, Service, in_world, on_tables,
}
use sovereign_rag.Ingestion.Service.Uploads.{ingest_upload}
use sovereign_rag.Ingestion.Service.Process.{process}
use sovereign_rag.Ingestion.Service.Prepare.{IngestDeps}

module _ {Vector : Type 0} where
  -- `INSERT INTO document_permissions … ON CONFLICT DO NOTHING`, under its foreign key
  unfoldable pub grant_row : Uuid → Text → Text → ℕ → Tables Vector → Outcome (Tables Vector)
  grant_row id principal granted_by now t =
      if is_some (document_of id t.documents)
      then ok (
          if exists_in (λ p. p.document_id == id && same_text p.principal principal) t.permissions
          then t
          else record t {
            permissions =
                t.permissions
                ++ record {
                  document_id = id;
                  principal = principal;
                  granted_by = granted_by;
                  granted_at = now;
                }
                  ∷ [];
          })
      else raised (other_error (codes "ForeignKeyViolation"))

  abbrev pub nothing_else : Outcome (Tables Vector) → Outcome (Unit {0} × Tables Vector)
  nothing_else (ok t) = ok (tt, t)
  nothing_else (raised e) = raised e

module _ {W Vector : Type 0} (deps : IngestDeps W Vector) where
  unfoldable pub run_each : List (Task Vector) → Service W Vector → Service W Vector
  unfolding process
  run_each [] s = s
  run_each (task ∷ tasks) s = run_each tasks (process deps task s).1

  -- the tasks that are gathered run one after the other
  unfoldable pub wait_idle : Service W Vector → Service W Vector
  unfolding run_each
  wait_idle s = record (run_each s.tasks s) { tasks = [] }

  -- `_GRANT_ALL`, on a connection of its own
  unfoldable pub grant_all : Document → Service W Vector → Outcome (Unit {0}) × Service W Vector
  unfolding grant_row transaction
  grant_all row s =
      let (now, s) = in_world deps.server.now s in
      on_tables
        (transaction deps.server
          λ t. nothing_else (grant_row row.id (codes "*") (codes "system:seed") now t))
        s

  abbrev pub seeded_row :
      Outcome Registered → Service W Vector → Outcome (Unit {0}) × Service W Vector
  seeded_row (raised e) s = (raised e, s)
  seeded_row (ok duplicate_content) s = (raised (other_error (codes "DuplicateContentError")), s)
  seeded_row (ok (registered row deduplicated)) s = grant_all row s

  -- one file of the directory; the others are passed over
  unfoldable pub seed_file : Text → Bytes → Service W Vector → Outcome (Unit {0}) × Service W Vector
  unfolding ingest_upload grant_all content_type_of suffix
  seed_file name data_bytes s = elim (content_type_of (suffix name)) [
    | none ↦ (ok tt, s)
    | some content_type ↦
        let (r, s') =
          ingest_upload deps (λ t. t)
            (record {
              filename = name;
              data_bytes = data_bytes;
              content_type = content_type;
              owner_id = codes "system";
            })
            s in
        seeded_row r s'
  ]

  abbrev pub seed_on :
      Outcome (Unit {0})
      → (Service W Vector → Outcome (Unit {0}) × Service W Vector)
      → Service W Vector
      → Outcome (Unit {0}) × Service W Vector
  seed_on (ok _) rest s = rest s
  seed_on (raised e) rest s = (raised e, s)

  unfoldable pub seed_files :
      List (Text × Bytes) → Service W Vector → Outcome (Unit {0}) × Service W Vector
  unfolding seed_file wait_idle
  seed_files [] s = (ok tt, wait_idle s)
  seed_files ((name, data_bytes) ∷ files) s =
      let (r, s') = seed_file name data_bytes s in seed_on r (λ u. seed_files files u) s'

  -- the sorted files of the directory, if it is one
  unfoldable pub seed_demo :
      Option (List (Text × Bytes)) → Service W Vector → Outcome (Unit {0}) × Service W Vector
  unfolding seed_files
  seed_demo none s = (ok tt, s)
  seed_demo (some files) s = seed_files files s
