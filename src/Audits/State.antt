-- ===== src/Audits/State.antt =====
-- The rows of `audits` and the statements on them (the SQL of
-- backend/src/sovereign_rag/audits.py).
use sovereign_rag.Base.{
  Option, none, some, List, [], ◌∷◌, ◌++◌, Bool, true, false, not, ◌&&◌, ◌==◌, if◌then◌else◌,
  is_empty, map, select,
}
use sovereign_rag.Text.{Text, same_text}
use sovereign_rag.Store.{Uuid}
use sovereign_rag.Compliance.State.{Requirement, Finding}

pub data Status : Type 0 where
  queued running completed failed : Status

pub record AuditRow : Type 0 where
  pub id : Uuid
  pub owner_id : Text
  pub regulation_id : Uuid
  pub regulation_filename : Text
  pub status : Status
  pub requirements : List Requirement
  pub findings : List Finding
  pub summary : Option Text
  pub error : Option Text

-- `status IN ('queued', 'running')`
abbrev pub is_active : Status → Bool
is_active queued = true
is_active running = true
is_active _ = false

-- `_INSERT`, with the defaults of the table
abbrev pub new_row : Uuid → Text → Uuid → Text → AuditRow
new_row id owner_id regulation_id filename = record {
  id = id;
  owner_id = owner_id;
  regulation_id = regulation_id;
  regulation_filename = filename;
  status = queued;
  requirements = [];
  findings = [];
  summary = none;
  error = none;
}

-- `_HAS_ACTIVE`
unfoldable pub has_active : Text → List AuditRow → Bool
has_active owner_id audits =
    not (is_empty (select (λ row. same_text row.owner_id owner_id && is_active row.status) audits))

-- `_LOAD`
unfoldable pub load : Uuid → List AuditRow → Option AuditRow
load id [] = none
load id (row ∷ audits) = if row.id == id then some row else load id audits

-- `UPDATE audits SET … WHERE id = …`; the id is the key of the table
unfoldable pub update : Uuid → (AuditRow → AuditRow) → List AuditRow → List AuditRow
update id set [] = []
update id set (row ∷ audits) = if row.id == id then set row ∷ audits else row ∷ update id set audits

-- the `SET` clauses of `_SET_STATUS`, `_SET_REQUIREMENTS`, `_APPEND_FINDING` and `_COMPLETE`
abbrev pub set_status : Status → Option Text → AuditRow → AuditRow
set_status status error row = record row { status = status; error = error }

abbrev pub set_requirements : List Requirement → AuditRow → AuditRow
set_requirements requirements row = record row { requirements = requirements }

abbrev pub append_finding : Finding → AuditRow → AuditRow
append_finding finding row = record row { findings = row.findings ++ finding ∷ [] }

abbrev pub set_complete : Text → AuditRow → AuditRow
set_complete summary row = record row { status = completed; summary = some summary }

-- `_INTERRUPTED`
unfoldable pub interrupted : List AuditRow → List (Uuid × Text)
interrupted audits =
    map (λ row. (row.id, row.owner_id)) (select (λ row. is_active row.status) audits)
