-- ===== src/Ingestion/Service/Answers.antt =====
-- What `ingest_upload` answers, and what it leaves
-- (backend/src/sovereign_rag/ingestion/service.py).
use sovereign_rag.Base.{
  ◌⊎◌, append-nil, ◌∙◌, ℕ, ◌≡◌, refl, sym, ap, inl, inr, Option, List, [], ◌++◌,
}
use sovereign_rag.Text.{Text}
use sovereign_rag.Effects.{Fault, Outcome, ok, raised}
use sovereign_rag.Store.{Uuid}
use sovereign_rag.Tables.{Document, Tables}
use sovereign_rag.Tables.Session.{commit, begin, transaction}
use sovereign_rag.Ingestion.Service.State.{
  Upload, Registered, registered, duplicate_content, Task, Service,
}
use sovereign_rag.Ingestion.Service.Uploads.{
  select_by_sha, Written, write_upload, split_written, scheduled, early, unsaved, ingest_upload,
  ingest_upload_with,
}
use sovereign_rag.Ingestion.Service.Prepare.{IngestDeps}
use sovereign_rag.Ingestion.Service.Told.{
  Says, Tells, Races, Reclaims, write_upload-Tells, write_upload-Races, early_lem,
}

module _ {W Vector : Type 0} (deps : IngestDeps W Vector)
    (meanwhile : Tables Vector → Tables Vector) (up : Upload) (s : Service W Vector) where
  abbrev digest : Text
  digest = deps.sha256 up.data_bytes

  abbrev rows : List Document
  rows = s.site.tables.documents

  abbrev now_there : Tables Vector
  now_there = meanwhile s.site.tables

  -- what makes an upload raise
  abbrev pub Causes : Outcome (Unit {0}) → Fault → Type 0
  Causes committing e =
      (committing ≡ raised e)
      ⊎ ((((w : W) × ((deps.server.statement w).0 ≡ raised e))) ⊎ Races rows digest now_there up)

  -- the answer with what it left, or nothing written; only a commit that raises may leave a task
  abbrev pub IsAnswered : Outcome (Unit {0}) → Outcome Registered × Service W Vector → Type 0
  IsAnswered committing (raised e, s') =
      Causes committing e
      × (s'.site.tables ≡ now_there)
      × ((s'.tasks ≡ s.tasks)
          ⊎ ((committing ≡ raised e)
              × ((created : List (Task Vector)) × (s'.tasks ≡ s.tasks ++ created)
                  × Reclaims rows digest now_there up created)))
  IsAnswered committing (ok answer, s') =
      (created : List (Task Vector)) × (s'.tasks ≡ s.tasks ++ created)
      × Says rows digest now_there up answer s'.site.tables created

  committed :
      (w : W) (r : Outcome (Written Vector))
      → ((e : Fault) → r ≡ raised e → Races rows digest now_there up)
      → ((x : Written Vector) → r ≡ ok x → Tells rows digest now_there up x)
      → let (q, site) = commit (split_written r) (record { world = w; tables = now_there }) in
        IsAnswered (ok tt) (scheduled q (record s { site = site }))
  committed w (raised e) races h = (inr (inr (races e refl)), refl, inl refl)
  committed w (ok (answer, t, created)) races h = (created, refl, h _ refl)

  connected :
      (existing : Option Document) (new_id : Uuid) (now : ℕ) (w₀ w : W) (r : Outcome (Unit {0}))
      → (deps.server.statement w₀).0 ≡ r
      → select_by_sha digest s.site.tables.documents ≡ existing
      → let (q, site) =
          begin r
            (λ t. split_written (write_upload existing new_id now digest up t))
            (record { world = w; tables = now_there }) in
        IsAnswered (ok tt) (scheduled q (record s { site = site }))
  connected existing new_id now w₀ w (raised e) told found = (inr (inl (w₀, told)), refl, inl refl)
  connected existing new_id now w₀ w (ok _) told found =
      committed w _ (λ e. write_upload-Races rows digest now_there up existing new_id now e found)
        (λ x e. write_upload-Tells rows digest now_there up existing new_id now x found e)

  -- what a commit that raises leaves
  unsaved_lem :
      (e : Fault) (existing : Option Document) (r : Outcome (Written Vector)) (w : W)
      → ((x : Fault) → r ≡ raised x → Races rows digest now_there up)
      → ((x : Written Vector) → r ≡ ok x → Tells rows digest now_there up x)
      → ((x : Written Vector)
          → r ≡ ok x
          → (early existing x.2 ≡ []) ⊎ Reclaims rows digest now_there up (early existing x.2))
      → IsAnswered
          (raised e)
          (unsaved e existing (ok r) (record s { site = record { world = w; tables = now_there } }))
  unsaved_lem e existing (raised x) w races h k = (inr (inr (races x refl)), refl, inl refl)
  unsaved_lem e existing (ok (duplicate_content, t, tasks)) w races h k =
      let (row, same, none_made) = h _ refl in ([], sym (append-nil s.tasks), (row, refl, refl))
  unsaved_lem e existing (ok (registered row known, t, tasks)) w races h k = (
    inl refl,
    refl,
    elim (k _ refl) [
      | inl nothing ↦ inl (ap (λ made. s.tasks ++ made) nothing ∙ append-nil s.tasks)
      | inr reclaims ↦ inr (refl, (early existing tasks, refl, reclaims))
    ],
  )

  uncommitted :
      (e : Fault) (existing : Option Document) (new_id : Uuid) (now : ℕ) (w₀ w : W)
      (r : Outcome (Unit {0}))
      → (deps.server.statement w₀).0 ≡ r
      → select_by_sha digest s.site.tables.documents ≡ existing
      → let (q, site) =
          begin r
            (λ t. ok (write_upload existing new_id now digest up t, t))
            (record { world = w; tables = now_there }) in
        IsAnswered (raised e) (unsaved e existing q (record s { site = site }))
  uncommitted e existing new_id now w₀ w (raised x) told found =
      (inr (inl (w₀, told)), refl, inl refl)
  uncommitted e existing new_id now w₀ w (ok _) told found =
      unsaved_lem e existing (write_upload existing new_id now digest up now_there) w
        (λ x. write_upload-Races rows digest now_there up existing new_id now x found)
        (λ x q. write_upload-Tells rows digest now_there up existing new_id now x found q)
        (λ x q. early_lem rows digest now_there up existing new_id now x found q)

  -- An upload ends in one of four ways, whatever other connections commit between its first read
  -- and the rest, and whether its commit returns or raises. Call a row known if the first read
  -- finds it stored under the digest of the bytes. It answers with a known row that the uploader
  -- may see, as a duplicate, and writes nothing; that row did not fail, or it is gone or failed
  -- no more when it would be reclaimed. Or it answers with a row that is now stored in
  -- processing, and exactly one task is created, for that row and these bytes. Or the content is
  -- refused: there is a known row that the uploader may not see, and nothing is written. Or it
  -- raises and nothing is written; then the commit or another statement raises that fault, or
  -- another connection stored the digest behind the first read. No task is created then, but a
  -- commit that raises may leave one task for a known row that failed before and that the
  -- uploader may see.
  pub ingest_upload-IsAnswered :
      (committing : Outcome (Unit {0}))
      → IsAnswered committing (ingest_upload_with deps committing meanwhile up s)
  unfolding ingest_upload_with ingest_upload transaction
  ingest_upload-IsAnswered (ok tt) = connected _ _ _ _ _ (deps.server.statement _).0 refl refl
  ingest_upload-IsAnswered (raised e) =
      uncommitted e _ _ _ _ _ (deps.server.statement _).0 refl refl
