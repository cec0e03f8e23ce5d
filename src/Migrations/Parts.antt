-- ===== src/Migrations/Parts.antt =====
-- A run of the migrations applies an initial part of the pending files
-- (backend/src/sovereign_rag/db.py).
use sovereign_rag.Base.{ap, ◌∙◌, ◌≡◌, refl, inl, inr, List, [], ◌∷◌, ◌++◌, Bool-cases, not, select}
use sovereign_rag.Text.{Text}
use sovereign_rag.Effects.{Fault, Outcome, ok, raised}
use sovereign_rag.Migrations.{Migration, Database, is_among, transaction, apply_each}

module _ {Schema : Type 0} (execute : Text → Schema → Outcome Schema) where
  -- the files have run one after the other, each whole
  abbrev pub Ran : List Migration → Database Schema → Database Schema → Type 0
  Ran [] db after = after ≡ db
  Ran (m ∷ files) db after =
      (mid : Database Schema) × ((transaction execute m db ≡ ok mid) × Ran files mid after)

  -- an initial part of the pending files has run; the first of the rest, if any, has raised `r`
  pub record IsPart (pending : List Migration) (db : Database Schema) (r : Outcome (Unit {0}))
      (after : Database Schema) : Type 0 where
    pub done : List Migration
    pub rest : List Migration
    pub split : pending ≡ done ++ rest
    pub ran : Ran done db after
    pub whole : r ≡ ok tt → rest ≡ []
    pub stopped :
        (e : Fault)
        → r ≡ raised e
        → (m : Migration) × ((more : List Migration) × ((rest ≡ m ∷ more)
              × (transaction execute m after ≡ raised e)))

  abbrev pub pending : List Text → List Migration → List Migration
  pending applied files = select (λ m. not (is_among m.filename applied)) files

  started_lem :
      (applied : List Text) (m : Migration) (files : List Migration) (db : Database Schema)
      (t : Outcome (Database Schema))
      → transaction execute m db ≡ t
      → ((after : Database Schema)
          → IsPart
              (pending applied files)
              after
              (apply_each execute applied files after).0
              (apply_each execute applied files after).1)
      → let run : Outcome (Unit {0}) × Database Schema = elim t [
        | raised e ↦ (raised e, db)
        | ok after ↦ apply_each execute applied files after
      ] in
        IsPart (m ∷ pending applied files) db run.0 run.1
  started_lem applied m files db (raised e) q later = record {
    done = [];
    rest = m ∷ pending applied files;
    split = refl;
    ran = refl;
    whole = λ k. absurd (cc k);
    stopped = λ f k. (m, (pending applied files, (refl, q ∙ cc k)));
  }
  started_lem applied m files db (ok mid) q later =
      let part = later mid in
      record {
        done = m ∷ part.done;
        rest = part.rest;
        split = ap (λ ms. m ∷ ms) part.split;
        ran = (mid, (q, part.ran));
        whole = part.whole;
        stopped = part.stopped;
      }

  pub apply_each-IsPart :
      (applied : List Text) (files : List Migration) (db : Database Schema)
      → IsPart
          (pending applied files)
          db
          (apply_each execute applied files db).0
          (apply_each execute applied files db).1
  unfolding apply_each
  apply_each-IsPart applied [] db = record {
    done = [];
    rest = [];
    split = refl;
    ran = refl;
    whole = λ k. refl;
    stopped = λ e k. absurd (cc k);
  }
  apply_each-IsPart applied (m ∷ files) db = elim (Bool-cases (is_among m.filename applied)) [
    | inl e ↦ rw e (apply_each-IsPart applied files db)
    | inr e ↦ rw e (
        started_lem applied m files db (transaction execute m db) refl
          (apply_each-IsPart applied files))
  ]
