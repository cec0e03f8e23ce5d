-- ===== src/Ingestion/Service/Told.antt =====
-- What the connection's block of `ingest_upload` tells its caller
-- (backend/src/sovereign_rag/ingestion/service.py).
use sovereign_rag.Base.{
  IsIn-append_right, ◌==◌, IsIn, ◌⊎◌, ◌∙◌, ℕ, ◌≡◌, refl, sym, ap, subst, inl, inr, Option, none,
  some, List, [], ◌∷◌, true, false, Bool-cases, is_some, arith,
}
use sovereign_rag.Text.{Text, same_text, same_text_sound}
use sovereign_rag.Effects.{Fault, ok, raised}
use sovereign_rag.Store.{Uuid}
use sovereign_rag.Tables.{update_document, Document, processing, is_failed, Tables, document_of}
use sovereign_rag.Tables.Rows.{document_of-IsIn}
use sovereign_rag.Ingestion.Service.State.{Upload, Registered, registered, duplicate_content, Task}
use sovereign_rag.Ingestion.Service.Uploads.{
  claimed, select_by_sha, Written, is_visible, reclaim_row, reclaim_failed, reclaimed_or, new_task,
  write_existing, write_new, write_upload, early,
}

select_by_sha_lem :
    (sha256 : Text) (documents : List Document) (d : Document)
    → select_by_sha sha256 documents ≡ some d
    → IsIn d documents × (d.sha256 ≡ sha256)
unfolding select_by_sha
select_by_sha_lem sha256 [] d e = absurd (cc e)
select_by_sha_lem sha256 (x ∷ documents) d e = elim (Bool-cases (same_text x.sha256 sha256)) [
  | inl same ↦
      let found : x ≡ d = ground arith in
      (inl (sym found), rw (sym found) (same_text_sound x.sha256 sha256 same))
  | inr other ↦ let (i, e) = select_by_sha_lem sha256 documents d (ground arith) in (inr i, e)
]

update_document-IsIn :
    (id : Uuid) (f : Document → Document) (d : Document) (documents : List Document)
    → (d.id == id) ≡ true
    → IsIn d documents
    → IsIn (f d) (update_document id f documents)
update_document-IsIn id f d [] e i = absurd i
update_document-IsIn id f d (x ∷ documents) e (inl same) =
    let at : (x.id == id) ≡ true = rw (sym same) e in rw at (inl (ap f same))
update_document-IsIn id f d (x ∷ documents) e (inr i) =
    inr (update_document-IsIn id f d documents e i)

-- `rows` are the documents that the first SELECT read, `now_there` the tables that the block finds
module _ {Vector : Type 0} (rows : List Document) (digest : Text) (now_there : Tables Vector)
    (up : Upload) where
  -- a row of the digest, which the upload has read
  abbrev pub Known : Document → Type 0
  Known row = IsIn row rows × (row.sha256 ≡ digest)

  -- nothing to reclaim: the row did not fail, or by now it is gone or failed no more
  abbrev pub Settles : Document → Type 0
  Settles row =
      (is_failed row.status ≡ false)
      ⊎ ((d : Document)
          → document_of row.id now_there.documents ≡ some d
          → is_failed d.status ≡ false)

  -- a duplicate is a known row that the uploader may see; a stored row in processing has one task;
  -- refused content is that of a row which the uploader may not see
  abbrev pub Says : Registered → Tables Vector → List (Task Vector) → Type 0
  Says (registered row true) t created =
      Known row
      × Settles row
      × (is_visible row.id up.owner_id now_there ≡ true)
      × (t ≡ now_there)
      × (created ≡ [])
  Says (registered row false) t created =
      IsIn row t.documents × (row.status ≡ processing) × (created ≡ new_task row.id up ∷ [])
  Says duplicate_content t created =
      ((row : Document) × Known row × (is_visible row.id up.owner_id now_there ≡ false))
      × (t ≡ now_there)
      × (created ≡ [])

  abbrev pub Tells : Written Vector → Type 0
  Tells (answer, t, created) = Says answer t created

  reclaimed-Tells :
      (existing : Document)
      → Known existing
      → is_visible existing.id up.owner_id now_there ≡ true
      → (o : Option Document) → document_of existing.id now_there.documents ≡ o
      → Tells (reclaimed_or existing up (reclaim_row existing.id o now_there) now_there)
  reclaimed-Tells existing same seen none e =
      (same, inr (λ d p. let q : none ≡ some d = sym e ∙ p in absurd (cc q)), seen, refl, refl)
  reclaimed-Tells existing same seen (some d) e = elim (Bool-cases (is_failed d.status)) [
    | inl fails ↦
        let (stored, named) = document_of-IsIn existing.id now_there.documents d e in
        let there =
          update_document-IsIn existing.id claimed d now_there.documents (ground arith) stored in
        rw fails (there, refl, ap (λ i. new_task i up ∷ []) (sym named))
    | inr lost ↦ rw lost (same, inr (λ x p. still_lost x lost (sym e ∙ p)), seen, refl, refl)
  ]
    where
      still_lost :
          {a : Document} (x : Document)
          → is_failed a.status ≡ false
          → some a ≡ some x
          → is_failed x.status ≡ false
      still_lost x lost p = cc

  write_existing-Tells :
      (existing : Document) → Known existing → Tells (write_existing existing up now_there)
  unfolding write_existing reclaim_failed
  write_existing-Tells existing same =
      elim (Bool-cases (is_visible existing.id up.owner_id now_there)) [
        | inr hidden ↦ rw hidden ((existing, same, hidden), refl, refl)
        | inl seen ↦ rw seen (elim (Bool-cases (is_failed existing.status)) [
          | inr good ↦ rw good (same, inl good, seen, refl, refl)
          | inl fails ↦
              rw fails (reclaimed-Tells existing same seen (document_of existing.id _) refl)
        ])
      ]

  write_new-Tells :
      (new_id : Uuid) (now : ℕ) (r : Written Vector)
      → write_new new_id now digest up now_there ≡ ok r
      → Tells r
  unfolding write_new
  write_new-Tells new_id now r e =
      elim (Bool-cases (is_some (select_by_sha digest now_there.documents))) [
        | inl taken ↦ absurd (ground arith)
        | inr free ↦
            let q : ok _ ≡ ok r = rw free at e in
            subst Tells (cc_ok _ r q)
              (IsIn-append_right _ now_there.documents _ (inl refl), refl, refl)
      ]
    where
      cc_ok : (a b : Written Vector) → ok a ≡ ok b → a ≡ b
      cc_ok a b e = cc e

  pub write_upload-Tells :
      (existing : Option Document) (new_id : Uuid) (now : ℕ) (r : Written Vector)
      → select_by_sha digest rows ≡ existing
      → write_upload existing new_id now digest up now_there ≡ ok r
      → Tells r
  unfolding write_upload
  write_upload-Tells none new_id now r found e = write_new-Tells new_id now r e
  write_upload-Tells (some d) new_id now r found e =
      subst Tells (cc_ok _ r e) (write_existing-Tells d (select_by_sha_lem digest rows d found))
    where
      cc_ok : (a b : Written Vector) → ok a ≡ ok b → a ≡ b
      cc_ok a b e = cc e

  -- a task for a failed row of the digest, which the uploader may see
  abbrev pub Reclaims : List (Task Vector) → Type 0
  Reclaims created =
      (row : Document) × Known row
      × (is_failed row.status ≡ true)
      × (is_visible row.id up.owner_id now_there ≡ true)
      × (created ≡ new_task row.id up ∷ [])

  -- another connection stored the digest behind the upload's first read
  abbrev pub Races : Type 0
  Races =
      (select_by_sha digest rows ≡ none)
      × (is_some (select_by_sha digest now_there.documents) ≡ true)

  pub write_upload-Races :
      (existing : Option Document) (new_id : Uuid) (now : ℕ) (e : Fault)
      → select_by_sha digest rows ≡ existing
      → write_upload existing new_id now digest up now_there ≡ raised e
      → Races
  unfolding write_upload write_new
  write_upload-Races (some d) new_id now e found fails = absurd (cc fails)
  write_upload-Races none new_id now e found fails =
      elim (Bool-cases (is_some (select_by_sha digest now_there.documents))) [
        | inl taken ↦ (found, taken)
        | inr free ↦ let q : ok _ ≡ raised e = rw free at fails in absurd (cc q)
      ]

  made_lem :
      (existing : Document)
      → Known existing
      → let created = (write_existing existing up now_there).2 in (created ≡ []) ⊎ Reclaims created
  unfolding write_existing reclaim_failed
  made_lem existing known = elim (Bool-cases (is_visible existing.id up.owner_id now_there)) [
    | inr hidden ↦ rw hidden (inl refl)
    | inl seen ↦ rw seen (elim (Bool-cases (is_failed existing.status)) [
      | inr good ↦ rw good (inl refl)
      | inl fails ↦ rw fails (claimed_lem seen fails (document_of existing.id now_there.documents))
    ])
  ]
    where
      claimed_lem :
          is_visible existing.id up.owner_id now_there ≡ true
          → is_failed existing.status ≡ true
          → (o : Option Document)
          → let created =
              (reclaimed_or existing up (reclaim_row existing.id o now_there) now_there).2 in
            (created ≡ []) ⊎ Reclaims created
      claimed_lem seen fails none = inl refl
      claimed_lem seen fails (some d) = elim (Bool-cases (is_failed d.status)) [
        | inl k ↦ rw k (inr (existing, known, fails, seen, refl))
        | inr k ↦ rw k (inl refl)
      ]

  pub early_lem :
      (existing : Option Document) (new_id : Uuid) (now : ℕ) (x : Written Vector)
      → select_by_sha digest rows ≡ existing
      → write_upload existing new_id now digest up now_there ≡ ok x
      → (early existing x.2 ≡ []) ⊎ Reclaims (early existing x.2)
  unfolding write_upload
  early_lem none new_id now x found e = inl refl
  early_lem (some d) new_id now x found e =
      subst (λ y. (y.2 ≡ []) ⊎ Reclaims y.2) (cc_ok _ x e)
        (made_lem d (select_by_sha_lem digest rows d found))
    where
      cc_ok : (a b : Written Vector) → ok a ≡ ok b → a ≡ b
      cc_ok a b e = cc e
