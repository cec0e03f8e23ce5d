-- ===== src/Documents.antt =====
-- The document endpoints (backend/src/sovereign_rag/routes/documents.py), with the row that each
-- change writes in the audit trail (backend/src/sovereign_rag/audit.py).
pub mod Listing
pub mod Owners
pub mod Shares
mod Tests
use sovereign_rag.Base.{
  ℕ, zero, suc, ◌+◌, ◌*◌, ◌-◌, Option, none, some, List, [], ◌∷◌, ◌++◌, map, Bool, true, false, not,
  ◌&&◌, leb, ltb, ◌==◌, if◌then◌else◌, is_empty, length, select, forall_in, sort_by, or_else,
}
use sovereign_rag.Text.{Text, codes, same_text, is_space}
use sovereign_rag.Effects.{Outcome, ok, raised, Run, pure, ◌>>=◌, ◌>>◌}
use sovereign_rag.Json.{Json, boolean, string}
use sovereign_rag.Store.{Uuid}
use sovereign_rag.Tables.{
  Document, DocumentStatus, Permission, AuditEntry, Tables, visible_to, document_of, delete_row,
  chunks_of,
}
use sovereign_rag.Tables.Session.{Site, transaction, drawn}
use sovereign_rag.Auth.{User}
use sovereign_rag.Paths.{suffix, content_type_of}
use sovereign_rag.Ingestion.Extract.Formats.{Bytes}
use sovereign_rag.Ingestion.Extract.Headings.{is_digit, value_from}
use sovereign_rag.Ingestion.Service.State.{
  Registered, registered, duplicate_content, Service, on_tables,
}
use sovereign_rag.Ingestion.Service.Uploads.{ingest_upload}
use sovereign_rag.Ingestion.Service.Process.{refresh_lexeme_stats}
use sovereign_rag.Ingestion.Service.Seed.{grant_row}
use sovereign_rag.Ingestion.Service.Prepare.{IngestDeps}
use sovereign_rag.Faults

-- a response with its status, or HTTPException
pub data Response (A : Type 0) : Type 0 where
  answer : ℕ → A → Response A
  refused : ℕ → Response A

-- `DocumentOut`
pub record DocumentOut : Type 0 where
  pub id : Uuid
  pub filename : Text
  pub content_type : Text
  pub size_bytes : ℕ
  pub status : DocumentStatus
  pub error : Option Text
  pub owner_id : Text
  pub created_at : ℕ
  pub deduplicated : Option Bool
  pub chunk_count : Option ℕ

abbrev pub document_out : Option Bool → Option ℕ → Document → DocumentOut
document_out deduplicated chunk_count d = record {
  id = d.id;
  filename = d.filename;
  content_type = d.content_type;
  size_bytes = d.size_bytes;
  status = d.status;
  error = d.error;
  owner_id = d.owner_id;
  created_at = d.created_at;
  deduplicated = deduplicated;
  chunk_count = chunk_count;
}

-- `PermissionOut`
pub record PermissionOut : Type 0 where
  pub principal : Text
  pub granted_by : Text
  pub granted_at : ℕ

-- the multipart request
pub record FileUpload : Type 0 where
  pub filename : Option Text
  pub content_length : Option Text
  pub data_bytes : Bytes

-- the components that the endpoints read from the application
pub record RouteDeps (W Vector : Type 0) : Type 0 where
  pub ingestion : IngestDeps W Vector
  pub delete_document : Uuid → Run (Site W Vector) (Unit {0})
  pub max_upload_mb : ℕ

-- the pattern and the lengths of `PermissionIn`; its `\s` knows no information separators
unfoldable pub valid_principal : Text → Bool
valid_principal p =
    not (is_empty p)
    && leb (length p) 200
    && forall_in (λ c. not (is_space c && not (leb 28 c && leb c 31)) && not (c == b'/')) p

-- `declared.isdigit() and int(declared) > …`
abbrev pub declared_over : ℕ → Option Text → Bool
declared_over bound none = false
declared_over bound (some h) =
    not (is_empty h) && forall_in is_digit h && ltb bound (value_from 0 h)

-- `_require_owner_or_admin`, and the same tests of `delete_document`: the status of the refusal
unfoldable pub owner_gate : Option Document → User → Option ℕ
owner_gate none user = some 404
owner_gate (some d) user =
    if not (same_text d.owner_id user.id) && not user.is_admin then some 403 else none

module _ {Vector : Type 0} where
  -- `audit`
  abbrev pub audit : AuditEntry → Tables Vector → Tables Vector
  audit entry t = record t { audit_log = t.audit_log ++ entry ∷ [] }

  -- `_LIST_DOCUMENTS_ADMIN` and `_LIST_DOCUMENTS_VISIBLE`
  unfoldable pub listed_documents : User → Tables Vector → List Document
  listed_documents user t =
      sort_by (λ a b. ltb a.created_at b.created_at)
        (if user.is_admin
          then t.documents
          else select (visible_to user.id t.permissions) t.documents)

  unfoldable pub listing : User → Tables Vector → List DocumentOut
  unfolding listed_documents
  listing user t =
      map (λ d. document_out none (some (length (chunks_of d.id t.chunks))) d)
        (listed_documents user t)

  -- `_LIST_PERMISSIONS`
  unfoldable pub permissions_of : Uuid → Tables Vector → List PermissionOut
  permissions_of id t =
      map
        (λ p. record {
          principal = p.principal;
          granted_by = p.granted_by;
          granted_at = p.granted_at;
        })
        (sort_by (λ p q. ltb q.granted_at p.granted_at)
          (select (λ p. p.document_id == id) t.permissions))

  -- `_REVOKE_PERMISSION`
  unfoldable pub revoke_row : Uuid → Text → Tables Vector → Tables Vector
  revoke_row id principal t = record t {
    permissions =
        select (λ p. not (p.document_id == id && same_text p.principal principal)) t.permissions;
  }

module _ {W Vector : Type 0} (deps : RouteDeps W Vector) where
  -- the statements of one connection
  unfoldable pub execute :
      {A : Type 0} → (Tables Vector → Outcome (A × Tables Vector)) → Run (Service W Vector) A
  unfolding transaction
  execute f = on_tables (transaction deps.ingestion.server f)

  abbrev pub fetch : {A : Type 0} → (Tables Vector → A) → Run (Service W Vector) A
  fetch f = execute λ t. ok (f t, t)

  abbrev pub if_allowed :
      {A : Type 0}
      → Option ℕ
      → Run (Service W Vector) (Response A)
      → Run (Service W Vector) (Response A)
  if_allowed (some status) m s = (ok (refused status), s)
  if_allowed none m s = m s

  abbrev pub upload_entry : User → Document → Text → Bool → AuditEntry
  upload_entry user row filename deduplicated = record {
    actor = user.id;
    action = codes "document.upload";
    object_type = codes "document";
    object_id = row.id;
    detail =
        (codes "filename", string filename) ∷ (codes "deduplicated", boolean deduplicated) ∷ [];
  }

  -- behind `ingest_upload`
  abbrev pub uploaded : User → Text → Registered → Run (Service W Vector) (Response DocumentOut)
  uploaded user filename duplicate_content = pure (refused 409)
  uploaded user filename (registered row deduplicated) =
      execute (λ t. ok (tt, audit (upload_entry user row filename deduplicated) t))
      >> pure
          (answer (if deduplicated then 200 else 202) (document_out (some deduplicated) none row))

  abbrev pub upload_limit : ℕ
  upload_limit = deps.max_upload_mb * 1024 * 1024

  unfoldable pub upload_document :
      (Tables Vector → Tables Vector)
      → FileUpload
      → User
      → Run (Service W Vector) (Response DocumentOut)
  unfolding execute suffix content_type_of ingest_upload
  upload_document meanwhile file user =
      let filename = or_else file.filename [] in
      elim (content_type_of (suffix filename)) [
        | none ↦ pure (refused 422)
        | some content_type ↦
            if declared_over (upload_limit + 16 * 1024) file.content_length
            then pure (refused 413)
            else if ltb upload_limit (length file.data_bytes)
            then pure (refused 413)
            else ingest_upload deps.ingestion meanwhile (record {
              filename = filename;
              data_bytes = file.data_bytes;
              content_type = content_type;
              owner_id = user.id;
            })
              >>= uploaded user filename
      ]

  unfoldable pub list_documents : User → Run (Service W Vector) (Response (List DocumentOut))
  unfolding execute listing
  list_documents user = do rows ← fetch (listing user); pure (answer 200 rows)

  abbrev pub gate_of : Uuid → User → Run (Service W Vector) (Option ℕ)
  gate_of id user = fetch λ t. owner_gate (document_of id t.documents) user

  unfoldable pub list_permissions :
      Uuid → User → Run (Service W Vector) (Response (List PermissionOut))
  unfolding execute owner_gate permissions_of
  list_permissions id user = gate_of id user >>= λ gate.
      if_allowed gate (fetch (permissions_of id) >>= λ rows. pure (answer 200 rows))

  abbrev pub share_entry : Text → Uuid → Text → User → AuditEntry
  share_entry action id principal user = record {
    actor = user.id;
    action = action;
    object_type = codes "document";
    object_id = id;
    detail = (codes "principal", string principal) ∷ [];
  }

  unfoldable pub grant_permission :
      Uuid → Text → User → Run (Service W Vector) (Response (Unit {0}))
  unfolding execute owner_gate grant_row valid_principal
  grant_permission id principal user =
      if not (valid_principal principal)
      then pure (refused 422)
      else gate_of id user >>= λ gate. if_allowed gate (
          on_tables (drawn deps.ingestion.server.now) >>= λ now.
          execute (λ t.
            Faults.◌>>=◌ (grant_row id principal user.id now t)
              λ t'. ok (tt, audit (share_entry (codes "permission.grant") id principal user) t'))
          >> pure (answer 204 tt))

  unfoldable pub revoke_permission :
      Uuid → Text → User → Run (Service W Vector) (Response (Unit {0}))
  unfolding execute owner_gate revoke_row
  revoke_permission id principal user = gate_of id user >>= λ gate. if_allowed gate (
      execute (λ t. ok (
        tt,
        audit (share_entry (codes "permission.revoke") id principal user)
            (revoke_row id principal t),
      ))
      >> pure (answer 204 tt))

  abbrev pub delete_entry : Uuid → Option Document → User → AuditEntry
  delete_entry id row user = record {
    actor = user.id;
    action = codes "document.delete";
    object_type = codes "document";
    object_id = id;
    detail = elim row [ none ↦ [] | some d ↦ (codes "filename", string d.filename) ∷ [] ];
  }

  -- the store's own connection first, then the row, and the trail beside it
  unfoldable pub delete_document : Uuid → User → Run (Service W Vector) (Response (Unit {0}))
  unfolding execute owner_gate delete_row refresh_lexeme_stats
  delete_document id user = fetch (λ t. document_of id t.documents) >>= λ row.
      if_allowed (owner_gate row user) (
        on_tables (deps.delete_document id)
        >> execute (λ t. ok (tt, audit (delete_entry id row user) (delete_row id t)))
        >> refresh_lexeme_stats deps.ingestion false
        >> pure (answer 204 tt))
