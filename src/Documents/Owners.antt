-- ===== src/Documents/Owners.antt =====
-- Only the owner of a document and the admins manage it
-- (backend/src/sovereign_rag/routes/documents.py).
use sovereign_rag.Base.{
  ℕ, ◌≡◌, refl, ◌⊎◌, inl, inr, Option, none, some, false, Bool-cases, if◌then◌else◌, arith, List,
}
use sovereign_rag.Text.{Text, same_text, same_text_sound}
use sovereign_rag.Effects.{continue, Fault, Outcome, ok, raised, Run, ◌>>=◌, pure}
use sovereign_rag.Store.{Uuid}
use sovereign_rag.Tables.{Document, Tables, document_of}
use sovereign_rag.Tables.Session.{begin, transaction}
use sovereign_rag.Auth.{User}
use sovereign_rag.Ingestion.Service.State.{Service}
use sovereign_rag.Documents.{
  Response, refused, RouteDeps, valid_principal, owner_gate, execute, fetch, if_allowed,
  list_permissions, grant_permission, revoke_permission, delete_document,
}

-- the document is unknown, or the user is neither its owner nor an admin
abbrev pub IsBarred : Uuid → User → List Document → ℕ → Type 0
IsBarred id user documents status =
    ((document_of id documents ≡ none) × (status ≡ 404))
    ⊎ ((d : Document) × (document_of id documents ≡ some d)
        × (d.owner_id ≡ user.id → ⊥)
        × (user.is_admin ≡ false)
        × (status ≡ 403))

owner_gate-IsBarred :
    (id : Uuid) (user : User) (documents : List Document) (status : ℕ)
    → IsBarred id user documents status
    → owner_gate (document_of id documents) user ≡ some status
unfolding owner_gate
owner_gate-IsBarred id user documents status (inl (unknown, e)) = rw (unknown, e) refl
owner_gate-IsBarred id user documents status (inr (d, found, other, plain, e)) =
    elim (Bool-cases (same_text d.owner_id user.id)) [
      | inl same ↦ absurd (other (same_text_sound d.owner_id user.id same))
      | inr differs ↦ rw (found, e) (ground arith)
    ]

module _ {W Vector : Type 0} (deps : RouteDeps W Vector) (s : Service W Vector) where
  -- nothing changes, and the status is this one, unless a statement raises
  abbrev pub Refuses : {A : Type 0} → ℕ → Run (Service W Vector) (Response A) → Type 0
  Refuses status m =
      ((m s).1.site.tables ≡ s.site.tables)
      × ((m s).1.tasks ≡ s.tasks)
      × (((m s).0 ≡ ok (refused status)) ⊎ ((e : Fault) × ((m s).0 ≡ raised e)))

  module _ {A B : Type 0} (f : Tables Vector → A) (gate : A → Option ℕ)
      (m : A → Run (Service W Vector) (Response B)) (status : ℕ)
      (closed : gate (f s.site.tables) ≡ some status) where
    gate_lem : Refuses status (fetch deps f >>= λ a. if_allowed deps (gate a) (m a))
    unfolding execute transaction ◌>>=◌
    gate_lem = reached (deps.ingestion.server.statement s.site.world).0
      where
        reached :
            (r : Outcome (Unit {0}))
            → (let (q, site) =
                  begin r
                    (λ t. ok (f t, t))
                    (record s.site { world = (deps.ingestion.server.statement s.site.world).1 }) in
                let (x, s') =
                  continue q (λ a. if_allowed deps (gate a) (m a)) (record s { site = site }) in
                (s'.site.tables ≡ s.site.tables)
                × (s'.tasks ≡ s.tasks)
                × ((x ≡ ok (refused status)) ⊎ ((e : Fault) × (x ≡ raised e))))
        reached (raised e) = (refl, refl, inr (e, refl))
        reached (ok _) = rw closed (refl, refl, inl refl)

  module _ (id : Uuid) (user : User) (status : ℕ)
      (barred : IsBarred id user s.site.tables.documents status) where
    closed : owner_gate (document_of id s.site.tables.documents) user ≡ some status
    closed = owner_gate-IsBarred id user s.site.tables.documents status barred

    grant_lem :
        (principal : Text)
        → Refuses
            (if valid_principal principal then status else 422)
            (grant_permission deps id principal user)
    unfolding grant_permission pure
    grant_lem principal = elim (Bool-cases (valid_principal principal)) [
      | inl good ↦ rw good (
          gate_lem (λ t. owner_gate (document_of id t.documents) user) (λ gate. gate) _ status
            closed)
      | inr bad ↦ rw bad (refl, refl, inl refl)
    ]

    -- For a document that is unknown, and for a user who is neither its owner nor an admin, the
    -- four endpoints that list permissions, grant one, revoke one and delete the document change
    -- no table and create no task. They answer 404 or 403, but granting to a malformed principal
    -- answers 422; or a statement raises.
    pub owners_only :
        (principal : Text)
        → Refuses status (list_permissions deps id user)
          × Refuses
              (if valid_principal principal then status else 422)
              (grant_permission deps id principal user)
          × Refuses status (revoke_permission deps id principal user)
          × Refuses status (delete_document deps id user)
    unfolding list_permissions revoke_permission delete_document
    owners_only principal = (
      gate_lem (λ t. owner_gate (document_of id t.documents) user) (λ gate. gate) _ status closed,
      grant_lem principal,
      gate_lem (λ t. owner_gate (document_of id t.documents) user) (λ gate. gate) _ status closed,
      gate_lem (λ t. document_of id t.documents) (λ row. owner_gate row user) _ status closed,
    )
