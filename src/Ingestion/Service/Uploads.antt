-- ===== src/Ingestion/Service/Uploads.antt =====
-- `ingest_upload` (backend/src/sovereign_rag/ingestion/service.py).
use sovereign_rag.Base.{
  ℕ, Option, none, some, List, [], ◌∷◌, ◌++◌, Bool, true, false, not, ◌&&◌, ◌==◌, if◌then◌else◌,
  is_some, length, select, exists_in,
}
use sovereign_rag.Text.{Text, codes, same_text}
use sovereign_rag.Effects.{Fault, other_error, Outcome, ok, raised}
use sovereign_rag.Store.{Uuid}
use sovereign_rag.Tables.{Document, processing, is_failed, Tables, visible_to, document_of}
use sovereign_rag.Tables.Session.{transaction}
use sovereign_rag.Ingestion.Service.Prepare.{IngestDeps}
use sovereign_rag.Ingestion.Service.State.{
  Upload, Registered, registered, duplicate_content, computing, Task, Service, update_row, in_world,
  on_tables,
}

-- `_SELECT_BY_SHA`
unfoldable pub select_by_sha : Text → List Document → Option Document
select_by_sha sha256 [] = none
select_by_sha sha256 (d ∷ documents) =
    if same_text d.sha256 sha256 then some d else select_by_sha sha256 documents

abbrev pub claimed : Document → Document
claimed d = record d { status = processing; error = none }

abbrev pub new_document : Uuid → ℕ → Text → Upload → Document
new_document new_id now sha256 up = record {
  id = new_id;
  filename = up.filename;
  content_type = up.content_type;
  sha256 = sha256;
  size_bytes = length up.data_bytes;
  status = processing;
  error = none;
  owner_id = up.owner_id;
  meta = [];
  created_at = now;
}

-- the answer, the tables and the task that is created
abbrev pub Written : Type 0 → Type 0
Written Vector = Registered × Tables Vector × List (Task Vector)

module _ {Vector : Type 0} where
  -- `_VISIBLE_TO`
  unfoldable pub is_visible : Uuid → Text → Tables Vector → Bool
  is_visible id user_id t =
      exists_in (λ d. d.id == id && visible_to user_id t.permissions d) t.documents

  abbrev pub reclaim_row :
      Uuid → Option Document → Tables Vector → Option (Document × Tables Vector)
  reclaim_row id none t = none
  reclaim_row id (some d) t =
      if is_failed d.status then some (claimed d, update_row id claimed t) else none

  -- `_RECLAIM_FAILED`, with its guard on the status
  unfoldable pub reclaim_failed : Uuid → Tables Vector → Option (Document × Tables Vector)
  reclaim_failed id t = reclaim_row id (document_of id t.documents) t

  -- `_DELETE_STALE_CHUNKS`
  abbrev pub purge : Uuid → Tables Vector → Tables Vector
  purge id t = record t { chunks = select (λ c. not (c.document_id == id)) t.chunks }

  abbrev pub new_task : Uuid → Upload → Task Vector
  new_task id up = record {
    document_id = id;
    data_bytes = up.data_bytes;
    content_type = up.content_type;
    stage = computing;
  }

  abbrev pub reclaimed_or :
      Document → Upload → Option (Document × Tables Vector) → Tables Vector → Written Vector
  reclaimed_or existing up none t = (registered existing true, t, [])
  reclaimed_or existing up (some (row, t')) t =
      (registered row false, purge existing.id t', new_task existing.id up ∷ [])

  -- a known digest, as the row was read
  unfoldable pub write_existing : Document → Upload → Tables Vector → Written Vector
  unfolding is_visible reclaim_failed
  write_existing existing up t =
      if not (is_visible existing.id up.owner_id t)
      then (duplicate_content, t, [])
      else if not (is_failed existing.status)
      then (registered existing true, t, [])
      else reclaimed_or existing up (reclaim_failed existing.id t) t

  -- a new digest. Where it is not new any more, UniqueViolation leaves the transaction aborted, and
  -- the SELECT of the handler raises
  unfoldable pub write_new : Uuid → ℕ → Text → Upload → Tables Vector → Outcome (Written Vector)
  unfolding select_by_sha
  write_new new_id now sha256 up t =
      if is_some (select_by_sha sha256 t.documents)
      then raised (other_error (codes "InFailedSqlTransaction"))
      else ok (
        registered (new_document new_id now sha256 up) false,
        record t { documents = t.documents ++ new_document new_id now sha256 up ∷ [] },
        new_task new_id up ∷ [],
      )

  -- behind the first SELECT, which read `existing`
  unfoldable pub write_upload :
      Option Document → Uuid → ℕ → Text → Upload → Tables Vector → Outcome (Written Vector)
  unfolding write_existing write_new
  write_upload none new_id now sha256 up t = write_new new_id now sha256 up t
  write_upload (some existing) new_id now sha256 up t = ok (write_existing existing up t)

abbrev pub split_written :
    {Vector : Type 0}
    → Outcome (Written Vector)
    → Outcome ((Registered × List (Task Vector)) × Tables Vector)
split_written (raised e) = raised e
split_written (ok (answer, t, tasks)) = ok ((answer, tasks), t)

-- the task of a reclaimed row is created inside the connection's block, that of a new one behind it
abbrev pub early : {Vector : Type 0} → Option Document → List (Task Vector) → List (Task Vector)
early none tasks = []
early (some existing) tasks = tasks

module _ {W Vector : Type 0} where
  abbrev pub others_commit : (Tables Vector → Tables Vector) → Service W Vector → Service W Vector
  others_commit meanwhile s = record s { site = record s.site { tables = meanwhile s.site.tables } }

  abbrev pub scheduled :
      Outcome (Registered × List (Task Vector))
      → Service W Vector
      → Outcome Registered × Service W Vector
  scheduled (raised e) s = (raised e, s)
  scheduled (ok (answer, tasks)) s = (ok answer, record s { tasks = s.tasks ++ tasks })

  -- the commit raised `e`; refused content leaves the block by an exception, without a commit
  abbrev pub unsaved :
      Fault
      → Option Document
      → Outcome (Outcome (Written Vector))
      → Service W Vector
      → Outcome Registered × Service W Vector
  unsaved e existing (raised x) s = (raised x, s)
  unsaved e existing (ok (raised x)) s = (raised x, s)
  unsaved e existing (ok (ok (duplicate_content, t, tasks))) s = (ok duplicate_content, s)
  unsaved e existing (ok (ok (registered row known, t, tasks))) s =
      (raised e, record s { tasks = s.tasks ++ early existing tasks })

module _ {W Vector : Type 0} (deps : IngestDeps W Vector) where
  -- where the commit succeeds: the identifier and the time of an insert are drawn first, if there is one or not;
  -- `meanwhile` is what other connections commit between the first SELECT and the rest
  unfoldable pub ingest_upload :
      (Tables Vector → Tables Vector)
      → Upload
      → Service W Vector
      → Outcome Registered × Service W Vector
  unfolding transaction select_by_sha write_upload
  ingest_upload meanwhile up s =
      let sha256 = deps.sha256 up.data_bytes in
      let existing = select_by_sha sha256 s.site.tables.documents in
      let (new_id, s) = in_world deps.server.uuid s in
      let (now, s) = in_world deps.server.now s in
      let (r, s) =
        on_tables
          (transaction deps.server
            λ t. split_written (write_upload existing new_id now sha256 up t))
          (others_commit meanwhile s) in
      scheduled r s

  -- the whole method, whatever becomes of the commit
  unfoldable pub ingest_upload_with :
      Outcome (Unit {0})
      → (Tables Vector → Tables Vector)
      → Upload
      → Service W Vector
      → Outcome Registered × Service W Vector
  unfolding ingest_upload
  ingest_upload_with (ok _) meanwhile up s = ingest_upload meanwhile up s
  ingest_upload_with (raised e) meanwhile up s =
      let sha256 = deps.sha256 up.data_bytes in
      let existing = select_by_sha sha256 s.site.tables.documents in
      let (new_id, s) = in_world deps.server.uuid s in
      let (now, s) = in_world deps.server.now s in
      let (r, s) =
        on_tables
          (transaction deps.server λ t. ok (write_upload existing new_id now sha256 up t, t))
          (others_commit meanwhile s) in
      unsaved e existing r s
