-- ===== src/Tables.antt =====
-- The tables of the document base (backend/migrations/0001_schema.sql and 0003_document_permissions.sql)
-- and the rule that all their readers share: who may see a document.
pub mod Rows
pub mod Session
use sovereign_rag.Base.{
  ℕ, Option, none, some, List, [], ◌∷◌, Bool, true, false, not, ◌&&◌, ◌||◌, ◌==◌, if◌then◌else◌,
  select, exists_in,
}
use sovereign_rag.Text.{Text, codes, same_text}
use sovereign_rag.Json.{Json}
use sovereign_rag.Store.{Uuid}

pub data DocumentStatus : Type 0 where
  processing ready failed : DocumentStatus

abbrev pub is_ready : DocumentStatus → Bool
is_ready ready = true
is_ready processing = false
is_ready failed = false

abbrev pub is_failed : DocumentStatus → Bool
is_failed failed = true
is_failed ready = false
is_failed processing = false

-- a row of `documents`
pub record Document : Type 0 where
  pub id : Uuid
  pub filename : Text
  pub content_type : Text
  pub sha256 : Text
  pub size_bytes : ℕ
  pub status : DocumentStatus
  pub error : Option Text
  pub owner_id : Text
  pub meta : List (Text × Text)
  pub created_at : ℕ

-- a row of `document_permissions`
pub record Permission : Type 0 where
  pub document_id : Uuid
  pub principal : Text
  pub granted_by : Text
  pub granted_at : ℕ

-- a row of `chunks`
pub record Chunk (Vector : Type 0) : Type 0 where
  pub id : Uuid
  pub document_id : Uuid
  pub chunk_index : ℕ
  pub content : Text
  pub section : Option Text
  pub page : Option ℕ
  pub embedding : Vector

-- a row of the view `lexeme_df` (0002_lexeme_df.sql)
pub record LexemeRow : Type 0 where
  pub word : Text
  pub ndoc : ℕ
  pub total : ℕ

-- a row of `audit_log` (0004_audit_log.sql); `detail` is a json object
pub record AuditEntry : Type 0 where
  pub actor : Text
  pub action : Text
  pub object_type : Text
  pub object_id : Uuid
  pub detail : List (Text × Json)

-- The rows stand in the order of their inserts.
pub record Tables (Vector : Type 0) : Type 0 where
  pub documents : List Document
  pub permissions : List Permission
  pub chunks : List (Chunk Vector)
  pub lexeme_df : List LexemeRow
  pub audit_log : List AuditEntry

-- `p.document_id = d.id AND p.principal IN (user_id, '*')`
unfoldable pub is_granted : Uuid → Text → Permission → Bool
is_granted id user_id p =
    p.document_id == id && (same_text p.principal user_id || same_text p.principal (codes "*"))

-- the owner, a named grant or the wildcard
unfoldable pub visible_to : Text → List Permission → Document → Bool
unfolding is_granted
visible_to user_id permissions d =
    same_text d.owner_id user_id || exists_in (is_granted d.id user_id) permissions

-- `SELECT … FROM documents WHERE id = …`
unfoldable pub document_of : Uuid → List Document → Option Document
document_of id [] = none
document_of id (d ∷ documents) = if d.id == id then some d else document_of id documents

abbrev pub update_document : Uuid → (Document → Document) → List Document → List Document
update_document id f [] = []
update_document id f (d ∷ documents) =
    (if d.id == id then f d else d) ∷ update_document id f documents

module _ {Vector : Type 0} where
  abbrev pub chunks_of : Uuid → List (Chunk Vector) → List (Chunk Vector)
  chunks_of id chunks = select (λ c. c.document_id == id) chunks

  -- `DELETE FROM documents WHERE id = …`, with the two cascades
  unfoldable pub delete_row : Uuid → Tables Vector → Tables Vector
  delete_row id t = record t {
    documents = select (λ d. not (d.id == id)) t.documents;
    permissions = select (λ p. not (p.document_id == id)) t.permissions;
    chunks = select (λ c. not (c.document_id == id)) t.chunks;
  }
