-- ===== src/Audits/Launch.antt =====
-- One audit at a time per owner, under launches one after another (`launch` of
-- backend/src/sovereign_rag/audits.py).
use sovereign_rag.Base.{
  ◌+◌, ◌≤◌, ◌≡◌, refl, sym, ◌∙◌, subst, Option, none, some, List, [], ◌∷◌, ◌++◌, arith, Bool, true,
  false, not, ◌&&◌, Bool-cases, inl, inr, if◌then◌else◌, is_empty, length, select,
}
use sovereign_rag.Text.{Text, same_text, same_text_sound}
use sovereign_rag.Effects.{continue, Outcome, ok, raised, ◌>>=◌}
use sovereign_rag.Store.{Uuid}
use sovereign_rag.Audits.State.{AuditRow, is_active, new_row, has_active}
use sovereign_rag.Audits.Service.{
  Jobs, JobDeps, run_statement, execute, insert_unless, start_task, launch,
}

-- the active audits of an owner
abbrev pub active_of : Text → List AuditRow → List AuditRow
active_of owner_id audits =
    select (λ row. same_text row.owner_id owner_id && is_active row.status) audits

abbrev pub IsSingle : List AuditRow → Type 0
IsSingle audits = (owner_id : Text) → length (active_of owner_id audits) ≤ 1

none_active : (rows : List AuditRow) → not (is_empty rows) ≡ false → length rows ≡ 0
none_active [] e = omega arith
none_active (r ∷ rows) e = absurd (cc e)

has_active-length :
    (owner_id : Text) (audits : List AuditRow)
    → has_active owner_id audits ≡ false
    → length (active_of owner_id audits) ≡ 0
unfolding has_active
has_active-length owner_id audits e = none_active (active_of owner_id audits) e

-- one more row adds at most one, and none to another owner
length-active_of :
    (owner_id : Text) (audits : List AuditRow) (row : AuditRow)
    → length (active_of owner_id (audits ++ row ∷ []))
      ≤ length (active_of owner_id audits) + (if same_text row.owner_id owner_id then 1 else 0)
length-active_of owner_id [] row = ground arith
length-active_of owner_id (r ∷ audits) row = ground (arith, length-active_of owner_id audits row)

IsSingle-append :
    (owner_id : Text) (audits : List AuditRow) (row : AuditRow)
    → row.owner_id ≡ owner_id
    → IsSingle audits
    → has_active owner_id audits ≡ false
    → IsSingle (audits ++ row ∷ [])
IsSingle-append owner_id audits row same h e o = elim (Bool-cases (same_text row.owner_id o)) [
  | inl hit ↦
      let here : o ≡ owner_id = sym (same_text_sound row.owner_id o hit) ∙ same in
      let nothing : length (active_of o audits) ≡ 0 =
        subst (λ x. length (active_of x audits) ≡ 0) (sym here)
          (has_active-length owner_id audits e) in
      ground (arith, length-active_of o audits row)
  | inr miss ↦ ground (arith, length-active_of o audits row, h o)
]

module _ {W Vector Score : Type 0} (deps : JobDeps W Vector Score) where
  inserts :
      (active : Bool) (id : Uuid) (owner_id : Text) (regulation_id : Uuid) (filename : Text)
      (s : Jobs W)
      → has_active owner_id s.audits ≡ active
      → IsSingle s.audits
      → IsSingle (insert_unless deps active id owner_id regulation_id filename s).1.audits
  inserts true id owner_id regulation_id filename s e h = h
  inserts false id owner_id regulation_id filename s e h =
      IsSingle-append owner_id s.audits (new_row id owner_id regulation_id filename) refl h e

  start_task-IsSingle :
      (o : Outcome (Option Uuid)) (owner_id : Text) (s : Jobs W)
      → IsSingle s.audits
      → IsSingle (continue o (λ started. start_task deps started owner_id) s).1.audits
  start_task-IsSingle (ok none) owner_id s h = h
  start_task-IsSingle (ok (some id)) owner_id s h = h
  start_task-IsSingle (raised e) owner_id s h = h

  runs :
      (r : Outcome (Unit {0})) (id : Uuid) (owner_id : Text) (regulation_id : Uuid)
      (filename : Text) (s : Jobs W)
      → IsSingle s.audits
      → IsSingle
          (run_statement
            (λ t.
              insert_unless deps
                (has_active owner_id t.audits)
                id
                owner_id
                regulation_id
                filename
                t)
            r
            s).1.audits
  runs (ok _) id owner_id regulation_id filename s h =
      inserts (has_active owner_id s.audits) id owner_id regulation_id filename s refl h
  runs (raised e) id owner_id regulation_id filename s h = h

  -- If every owner has at most one queued or running audit, that still holds after a launch,
  -- whether it starts an audit, refuses because one is active, or raises: launches that come one
  -- after another keep to one audit at a time per owner.
  pub launch-IsSingle :
      (owner_id : Text) (regulation_id : Uuid) (filename : Text) (s : Jobs W)
      → IsSingle s.audits
      → IsSingle (launch deps owner_id regulation_id filename s).1.audits
  unfolding launch execute ◌>>=◌
  launch-IsSingle owner_id regulation_id filename s h =
      let (id, w) = deps.uuid4 s.world in
      start_task-IsSingle _ owner_id _ (
        runs (deps.statement w).0 id owner_id regulation_id filename
          (record s { world = (deps.statement w).1 }) h)
