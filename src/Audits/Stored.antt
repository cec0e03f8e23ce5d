-- ===== src/Audits/Stored.antt =====
-- The stored audit, and how far its findings have come (the rows that
-- backend/src/sovereign_rag/audits.py writes).
use sovereign_rag.Base.{
  ◌≡◌, ap, ◌∙◌, ◌⊎◌, inl, inr, some, List, [], ◌∷◌, ◌++◌, arith, true, Bool-cases, ◌==◌, length,
  drop,
}
use sovereign_rag.Store.{Uuid}
use sovereign_rag.Compliance.State.{Requirement, Finding}
use sovereign_rag.Compliance.Judged.{Source, Answer, Answers}
use sovereign_rag.Audits.State.{Status, AuditRow, load, update}

pub load-update :
    (id : Uuid) (set : AuditRow → AuditRow) (rows : List AuditRow) (row : AuditRow)
    → ((r : AuditRow) → (set r).id ≡ r.id)
    → load id rows ≡ some row
    → load id (update id set rows) ≡ some (set row)
unfolding load update
load-update id set [] row k e = absurd (cc e)
load-update id set (r ∷ rows) row k e = elim (Bool-cases (r.id == id)) [
  | inl hit ↦
      let same : r ≡ row = ground arith in
      let again : ((set r).id == id) ≡ true = ap (λ i. i == id) (k r) ∙ hit in
      rw (hit, again) (ap (λ x. some (set x)) same)
  | inr miss ↦ rw (miss, miss) (load-update id set rows row k (ground arith))
]

-- what is stored of the audit
pub record Stored (id regulation_id : Uuid) (status : Status) (requirements : List Requirement)
    (findings : List Finding) (rows : List AuditRow) : Type 0 where
  pub row : AuditRow
  pub loaded : load id rows ≡ some row
  pub same_regulation : row.regulation_id ≡ regulation_id
  pub same_status : row.status ≡ status
  pub same_requirements : row.requirements ≡ requirements
  pub same_findings : row.findings ≡ findings

-- `new` answers the first of the requirements that `old` leaves, and `rest` are left
pub record Progress {Score : Type 0} (S : Source Score) (regulation_id : Uuid)
    (requirements : List Requirement) (old new : List Finding) (rest : List Requirement)
    : Type 0 where
  pub answered : List Requirement
  pub split : drop (length old) requirements ≡ answered ++ rest
  pub answers : Answers S regulation_id answered new

-- the map is kept if it was there
abbrev pub MapKept : List Requirement → List Requirement → Type 0
MapKept had requirements = (had ≡ requirements) ⊎ (had ≡ [])

pub Answers-append :
    {Score : Type 0} (S : Source Score) (regulation_id : Uuid) (rs : List Requirement)
    (fs : List Finding) (r : Requirement) (f : Finding)
    → Answers S regulation_id rs fs
    → Answer S regulation_id r f
    → Answers S regulation_id (rs ++ r ∷ []) (fs ++ f ∷ [])
Answers-append S i [] [] r f h k = (k, tt)
Answers-append S i [] (g ∷ fs) r f h k = absurd h
Answers-append S i (q ∷ rs) [] r f h k = absurd h
Answers-append S i (q ∷ rs) (g ∷ fs) r f h k = (h.0, Answers-append S i rs fs r f h.1 k)
