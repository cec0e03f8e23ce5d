-- ===== src/Ingestion/Service/Settled.antt =====
-- A background task comes to its end, and leaves its document ready or failed (`_process` of
-- backend/src/sovereign_rag/ingestion/service.py).
use sovereign_rag.Base.{
  ℕ, zero, suc, ◌≤◌, ◌==◌, ==_iff, ◌≡◌, refl, sym, subst, ◌⊎◌, inl, inr, Option, none, some, List,
  [], ◌∷◌, false, Bool-cases, arith, Every,
}
use sovereign_rag.Text.{Text}
use sovereign_rag.Effects.{
  Fault, cancelled, provider_error, extraction_error, value_error, other_error, Outcome, ok, raised,
  Allowed, Anything, Ends,
}
use sovereign_rag.Store.{Uuid, ChunkIn}
use sovereign_rag.Tables.{Document, ready, failed, update_document}
use sovereign_rag.Tables.Session.{begin, Site, transaction}
use sovereign_rag.Ingestion.Service.State.{
  Stage, computing, adding, flipping, failing, Task, Service, set_ready, set_failed, update_row,
}
use sovereign_rag.Ingestion.Service.Process.{
  handled, then_stage, behind_flip, run_stage, run_stages, process,
}
use sovereign_rag.Ingestion.Service.Prepare.{IngestDeps, prepare}
use sovereign_rag.Ingestion.Service.Stages.{refresh_lexeme_stats-Leaves}

-- how many stages are left at most
abbrev left : {Vector : Type 0} → Stage Vector → ℕ
left computing = 4
left (adding chunks meta) = 3
left (flipping meta) = 2
left (failing error) = 1

abbrev LeftBelow : {Vector : Type 0} → ℕ → Option (Stage Vector) → Type 0
LeftBelow n none = Unit
LeftBelow n (some stage) = suc (left stage) ≤ n

-- what `except Exception` takes
abbrev pub Caught : Fault → Type 0
Caught e = e ≡ cancelled → ⊥

abbrev pub IsSettled : Uuid → List Document → Type 0
IsSettled id documents = Every (λ d. d.id ≡ id → (d.status ≡ ready) ⊎ (d.status ≡ failed)) documents

update_document-IsSettled :
    (id : Uuid) (f : Document → Document) (documents : List Document)
    → ((d : Document) → ((f d).status ≡ ready) ⊎ ((f d).status ≡ failed))
    → IsSettled id (update_document id f documents)
update_document-IsSettled id f [] h = tt
update_document-IsSettled id f (d ∷ documents) h = elim (Bool-cases (d.id == id)) [
  | inl e ↦ rw e ((λ q. h d), update_document-IsSettled id f documents h)
  | inr e ↦
      rw e
        ((λ q. absurd (ground (arith, ==_iff d.id id))), update_document-IsSettled id f documents h)
]

module _ {W Vector : Type 0} (deps : IngestDeps W Vector) (task : Task Vector) where
  handled-LeftBelow : (e : Fault) (n : ℕ) → 2 ≤ n → LeftBelow n (handled deps e)
  handled-LeftBelow cancelled n l = tt
  handled-LeftBelow value_error n l = l
  handled-LeftBelow (provider_error m) n l = l
  handled-LeftBelow (extraction_error m) n l = l
  handled-LeftBelow (other_error m) n l = l

  then_stage-LeftBelow :
      {A : Type 0} (r : Outcome A) (f : A → Option (Stage Vector)) (n : ℕ)
      → 2 ≤ n
      → ((a : A) → LeftBelow n (f a))
      → LeftBelow n (then_stage deps r f)
  then_stage-LeftBelow (ok a) f n l h = h a
  then_stage-LeftBelow (raised e) f n l h = handled-LeftBelow e n l

  behind_flip-LeftBelow :
      (r : Outcome (Unit {0})) (s : Service W Vector) → LeftBelow 2 (behind_flip deps r s).0
  behind_flip-LeftBelow (ok _) s = tt
  behind_flip-LeftBelow (raised e) s = handled-LeftBelow e 2 (omega arith)

  run_stage-LeftBelow :
      (stage : Stage Vector) (s : Service W Vector)
      → LeftBelow (left stage) (run_stage deps task stage s).0
  unfolding run_stage
  run_stage-LeftBelow computing s =
      then_stage-LeftBelow _ (λ p. some (adding p.0 p.1)) 4 (omega arith) (λ p. omega arith)
  run_stage-LeftBelow (adding chunks meta) s =
      then_stage-LeftBelow _ (λ _. some (flipping meta)) 3 (omega arith) (λ _. omega arith)
  run_stage-LeftBelow (flipping meta) s = behind_flip-LeftBelow _ _
  run_stage-LeftBelow (failing error) s = tt

  run_stages-ends :
      (fuel : ℕ) (next : Option (Stage Vector)) (s : Service W Vector)
      → LeftBelow (suc fuel) next
      → (run_stages deps fuel task next s).0 ≡ none
  unfolding run_stages
  run_stages-ends zero none s l = refl
  run_stages-ends (suc fuel) none s l = refl
  run_stages-ends zero (some computing) s l = absurd (omega arith)
  run_stages-ends zero (some (adding chunks meta)) s l = absurd (omega arith)
  run_stages-ends zero (some (flipping meta)) s l = absurd (omega arith)
  run_stages-ends zero (some (failing error)) s l = absurd (omega arith)
  run_stages-ends (suc fuel) (some stage) s l =
      run_stages-ends fuel _ _ (lower _ (run_stage-LeftBelow stage s))
    where
      lower : (o : Option (Stage Vector)) → LeftBelow (left stage) o → LeftBelow (suc fuel) o
      lower none b = tt
      lower (some st) b = omega arith

  pub process-ends : (s : Service W Vector) → (process deps task s).0 ≡ none
  unfolding process
  process-ends s = run_stages-ends 4 (some computing) s (omega arith)

  module _ (statements : (w : W) → (deps.server.statement w).0 ≡ ok tt)
      (computes : Ends Anything Caught (prepare deps task.data_bytes task.content_type))
      (stores : (chunks : List (ChunkIn Vector)) (s : Site W Vector)
        → Allowed Anything Caught (deps.add_chunks task.document_id chunks s).0) where
    abbrev Settles : Service W Vector → Type 0
    Settles s = IsSettled task.document_id s.site.tables.documents

    written :
        (f : Document → Document) (s : Site W Vector)
        → ((d : Document) → ((f d).status ≡ ready) ⊎ ((f d).status ≡ failed))
        → IsSettled task.document_id
            (transaction deps.server
              (λ t. ok (tt, update_row task.document_id f t))
              s).1.tables.documents
    unfolding transaction
    written f s h = rw (statements s.world) (update_document-IsSettled task.document_id f _ h)

    failing-Settles :
        (fuel : ℕ) (error : Text) (s : Service W Vector)
        → 1 ≤ fuel
        → Settles (run_stages deps fuel task (some (failing error)) s).1
    unfolding run_stages run_stage
    failing-Settles zero error s l = absurd (omega arith)
    failing-Settles (suc zero) error s l = written (set_failed error) s.site (λ d. inr refl)
    failing-Settles (suc (suc fuel)) error s l = written (set_failed error) s.site (λ d. inr refl)

    handled-Settles :
        (fuel : ℕ) (e : Fault) (s : Service W Vector)
        → 1 ≤ fuel
        → Caught e
        → Settles (run_stages deps fuel task (handled deps e) s).1
    handled-Settles fuel cancelled s l c = absurd (c refl)
    handled-Settles fuel value_error s l c = failing-Settles fuel _ s l
    handled-Settles fuel (provider_error m) s l c = failing-Settles fuel _ s l
    handled-Settles fuel (extraction_error m) s l c = failing-Settles fuel _ s l
    handled-Settles fuel (other_error m) s l c = failing-Settles fuel _ s l

    then-Settles :
        {A : Type 0} (fuel : ℕ) (r : Outcome A) (f : A → Option (Stage Vector))
        (s : Service W Vector)
        → 1 ≤ fuel
        → Allowed Anything Caught r
        → ((a : A) → Settles (run_stages deps fuel task (f a) s).1)
        → Settles (run_stages deps fuel task (then_stage deps r f) s).1
    then-Settles fuel (ok a) f s l c h = h a
    then-Settles fuel (raised e) f s l c h = handled-Settles fuel e s l c

    flipped-Settles :
        (meta : List (Text × Text)) (s : Service W Vector) (w : W) (r : Outcome (Unit {0}))
        → r ≡ ok tt
        → let (q, site) =
            begin r
              (λ t. ok (tt, update_row task.document_id (set_ready meta) t))
              (record s.site { world = w }) in
          let (next, s') = behind_flip deps q (record s { site = site }) in
          Settles (run_stages deps 1 task next s').1
    unfolding run_stages
    flipped-Settles meta s w (raised e) q = absurd (cc q)
    flipped-Settles meta s w (ok _) q =
        subst (IsSettled task.document_id) (sym (refresh_lexeme_stats-Leaves deps false _).0)
          (update_document-IsSettled task.document_id (set_ready meta) _ (λ d. inl refl))

    flipping-Settles :
        (meta : List (Text × Text)) (s : Service W Vector)
        → Settles (run_stages deps 2 task (some (flipping meta)) s).1
    unfolding run_stages run_stage transaction
    flipping-Settles meta s =
        flipped-Settles meta s _ (deps.server.statement s.site.world).0 (statements s.site.world)

    -- Let every statement of the service's own connections run, and let computing the chunks and
    -- storing them raise no cancellation, though they may raise anything else. A background task
    -- that is run without interruption comes to its end within its four stages, and then its
    -- document, if it is still there, is ready or failed.
    pub process-settles :
        (s : Service W Vector)
        → ((process deps task s).0 ≡ none)
          × IsSettled task.document_id (process deps task s).1.site.tables.documents
    unfolding process run_stages run_stage
    process-settles s = (
      process-ends s,
      then-Settles 3 _ _ _ (omega arith) (computes.at s.site.world)
          λ p. then-Settles 2 _ _ _ (omega arith) (stores p.0 _) λ _. flipping-Settles p.1 _,
    )
