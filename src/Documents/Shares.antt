-- ===== src/Documents/Shares.antt =====
-- A share, and its end (backend/src/sovereign_rag/routes/documents.py).
use sovereign_rag.Base.{
  IsIn-append_right, ℕ, ◌==◌, ==_iff, ◌≡◌, refl, sym, ◌∙◌, ap, ◌⊎◌, inl, inr, none, some, List, [],
  ◌∷◌, ◌++◌, Bool, true, false, not, ◌&&◌, Bool-cases, arith, select, exists_in, IsIn,
}
use sovereign_rag.Text.{Text, codes, same_text, same_text_refl}
use sovereign_rag.Effects.{continue, Outcome, ok, Run, ◌>>=◌, pure}
use sovereign_rag.Store.{Uuid}
use sovereign_rag.Tables.{Document, Permission, Tables, document_of}
use sovereign_rag.Tables.Rows.{Grants}
use sovereign_rag.Tables.Session.{transaction, drawn}
use sovereign_rag.Auth.{User}
use sovereign_rag.Faults
use sovereign_rag.Ingestion.Service.State.{Service}
use sovereign_rag.Ingestion.Service.Seed.{grant_row}
use sovereign_rag.Documents.{
  on_tables, gate_of, answer, RouteDeps, valid_principal, owner_gate, execute, audit, revoke_row,
  share_entry, grant_permission, revoke_permission,
}

abbrev matches : Uuid → Text → Permission → Bool
matches id principal p = p.document_id == id && same_text p.principal principal

-- without a row of the principal, a revocation deletes nothing but the new row
module _ (id : Uuid) (principal : Text) (row : Permission) (of : row.document_id ≡ id)
    (to : row.principal ≡ principal) where
  revoked_rows :
      (ps : List Permission)
      → exists_in (matches id principal) ps ≡ false
      → select (λ p. not (matches id principal p)) (ps ++ row ∷ []) ≡ ps
  revoked_rows [] e =
      let named : same_text row.principal principal ≡ true = rw to (same_text_refl principal) in
      ground (arith, ==_iff row.document_id id)
  revoked_rows (p ∷ ps) e = elim (Bool-cases (matches id principal p)) [
    | inl hit ↦ absurd (ground arith)
    | inr miss ↦ rw miss (ap (λ l. p ∷ l) (revoked_rows ps (ground arith)))
  ]

bind-ok :
    {S A B : Type 0} (m : Run S A) (f : A → Run S B) (s : S) (a : A) (s' : S)
    → m s ≡ (ok a, s')
    → (m >>= f) s ≡ f a s'
unfolding ◌>>=◌
bind-ok m f s a s' e = ap (λ r. continue r.0 f r.1) e

module _ {W Vector : Type 0} (deps : RouteDeps W Vector) where
  -- in between the principal may see the document; in the end the permissions are as before, and
  -- the trail has a row for each of the two changes
  pub record IsRoundTrip (id : Uuid) (principal : Text) (user : User) (s s1 s2 : Service W Vector)
      : Type 0 where
    pub seen :
        (x : Document)
        → x.id ≡ id
        → (x.owner_id ≡ principal)
          ⊎ ((p : Permission) × IsIn p s1.site.tables.permissions × Grants x.id principal p)
    pub restored : s2.site.tables.permissions ≡ s.site.tables.permissions
    pub documents_kept : s2.site.tables.documents ≡ s.site.tables.documents
    pub trail :
        s2.site.tables.audit_log
        ≡ (s.site.tables.audit_log
            ++ share_entry deps (codes "permission.grant") id principal user ∷ [])
          ++ share_entry deps (codes "permission.revoke") id principal user ∷ []

module _ {W Vector : Type 0} (deps : RouteDeps W Vector)
    (statements : (w : W) → (deps.ingestion.server.statement w).0 ≡ ok tt) where
  abbrev after : Service W Vector → W → Tables Vector → Service W Vector
  after s w t = record s {
    site = record { world = (deps.ingestion.server.statement w).1; tables = t };
  }

  execute-ok :
      {A : Type 0} (f : Tables Vector → Outcome (A × Tables Vector)) (s : Service W Vector) (a : A)
      (t : Tables Vector)
      → f s.site.tables ≡ ok (a, t)
      → execute deps f s ≡ (ok a, after s s.site.world t)
  unfolding execute transaction
  execute-ok f s a t e = rw (statements s.site.world, e) refl

  module _ (id : Uuid) (principal : Text) (user : User) (s : Service W Vector) (d : Document)
      (found : document_of id s.site.tables.documents ≡ some d)
      (allowed : owner_gate (some d) user ≡ none) (valid : valid_principal principal ≡ true)
      (unshared : exists_in (matches id principal) s.site.tables.permissions ≡ false) where
    -- the time of the grant
    abbrev drawn_now : ℕ × W
    drawn_now = deps.ingestion.server.now (deps.ingestion.server.statement s.site.world).1

    abbrev row : Permission
    row = record {
      document_id = id;
      principal = principal;
      granted_by = user.id;
      granted_at = drawn_now.0;
    }

    abbrev shared : Tables Vector
    shared =
        audit (share_entry deps (codes "permission.grant") id principal user)
          (record s.site.tables { permissions = s.site.tables.permissions ++ row ∷ [] })

    gate_open :
        (s' : Service W Vector)
        → s'.site.tables.documents ≡ s.site.tables.documents
        → gate_of deps id user s' ≡ (ok none, after s' s'.site.world s'.site.tables)
    gate_open s' same =
        execute-ok (λ t. ok (owner_gate (document_of id t.documents) user, t)) s' none
          s'.site.tables
          (ap (λ o. ok (o, s'.site.tables))
            (ap (λ ds. owner_gate (document_of id ds) user) same
              ∙ ap (λ o. owner_gate o user) found
              ∙ allowed))

    new_row :
        grant_row id principal user.id drawn_now.0 s.site.tables
        ≡ ok (record s.site.tables { permissions = s.site.tables.permissions ++ row ∷ [] })
    unfolding grant_row
    new_row = rw (found, unshared) refl

    granted :
        grant_permission deps id principal user s ≡ (ok (answer 204 tt), after s drawn_now.1 shared)
    unfolding grant_permission pure drawn
    granted = rw valid (
        bind-ok (gate_of deps id user) _ s _ _ (gate_open s refl)
        ∙ bind-ok (on_tables (drawn deps.ingestion.server.now)) _ _ drawn_now.0
            (record s { site = record { world = drawn_now.1; tables = s.site.tables } }) refl
        ∙ bind-ok _ _ _ tt (after s drawn_now.1 shared) (
            execute-ok _ _ tt shared (
              ap
                (λ r. Faults.◌>>=◌ r λ t'.
                  ok (tt, audit (share_entry deps (codes "permission.grant") id principal user) t'))
                new_row)))

    -- the service behind the grant
    abbrev shared_service : Service W Vector
    shared_service = after s drawn_now.1 shared

    abbrev unshared_again : Tables Vector
    unshared_again =
        audit (share_entry deps (codes "permission.revoke") id principal user)
          (record shared { permissions = s.site.tables.permissions })

    old_rows :
        revoke_row id principal shared ≡ record shared { permissions = s.site.tables.permissions }
    unfolding revoke_row
    old_rows =
        ap (λ ps. record shared { permissions = ps })
          (revoked_rows id principal row refl refl s.site.tables.permissions unshared)

    revoked : revoke_permission deps id principal user shared_service ≡ (
      ok (answer 204 tt),
      after shared_service
          (deps.ingestion.server.statement shared_service.site.world).1
          unshared_again,
    )
    unfolding revoke_permission pure
    revoked =
        bind-ok (gate_of deps id user) _ shared_service _ _ (gate_open shared_service refl)
        ∙ bind-ok _ _ _ tt _ (
            execute-ok _ _ tt unshared_again (
              ap
                (λ t'.
                  ok
                    (tt, audit (share_entry deps (codes "permission.revoke") id principal user) t'))
                old_rows))

    -- Let every statement run. The owner of a stored document, or an admin, who grants it to a
    -- well-formed principal that has no grant and then revokes the grant is answered 204 twice.
    -- In between the principal may see the document. In the end the permissions and the documents
    -- are as before, and the audit trail has one new row for each of the two changes, in their
    -- order.
    pub grant-revoke :
        let (r1, s1) = grant_permission deps id principal user s in
        let (r2, s2) = revoke_permission deps id principal user s1 in
        (r1 ≡ ok (answer 204 tt))
        × (r2 ≡ ok (answer 204 tt))
        × IsRoundTrip deps id principal user s s1 s2
    grant-revoke =
        rw (granted, revoked)
          (
            refl,
            refl,
            record {
              seen = λ x e. inr (
                row,
                IsIn-append_right row s.site.tables.permissions (row ∷ []) (inl refl),
                record { of = sym e; to = inl refl },
              );
              restored = refl;
              documents_kept = refl;
              trail = refl;
            },
          )
