-- ===== src/Migrations.antt =====
-- The runner of the SQL migrations (`apply_migrations`, backend/src/sovereign_rag/db.py).
pub mod Parts
pub mod Runs
mod Tests
use sovereign_rag.Base.{
  append-nil, ap, ◌∙◌, ℕ, ◌≡◌, refl, sym, subst, inl, inr, Option, none, some, List, [], ◌∷◌, ◌++◌,
  Bool, true, false, Bool-cases, not, ltb, ◌==◌, if◌then◌else◌, exists_in, Every, select, sort_by,
  Every-sort_by, arith,
}
use sovereign_rag.Text.{Text, codes, same_text, same_text_refl}
use sovereign_rag.Effects.{Fault, other_error, Outcome, ok, raised}

-- migrations/*.sql
pub record Migration : Type 0 where
  pub filename : Text
  pub statements : Text

-- the database: what the migrations build, the rows of schema_migrations, and the advisory lock
pub record Database (Schema : Type 0) : Type 0 where
  pub schema : Schema
  pub schema_migrations : Option (List Text)
  pub is_locked : Bool

-- the order of two names, by code points
unfoldable pub before_text : Text → Text → Bool
before_text [] [] = false
before_text [] (d ∷ t) = true
before_text (c ∷ s) [] = false
before_text (c ∷ s) (d ∷ t) =
    let rest = before_text s t in if ltb c d then true else if c == d then rest else false

-- `sorted(MIGRATIONS_DIR.glob("*.sql"))`
unfoldable pub in_order : List Migration → List Migration
unfolding before_text
in_order = sort_by (λ a b. before_text b.filename a.filename)

abbrev pub is_among : Text → List Text → Bool
is_among name names = exists_in (same_text name) names

abbrev pub rows : Option (List Text) → List Text
rows none = []
rows (some names) = names

module _ {Schema : Type 0} where
  -- the row of a file; the name is the primary key
  unfoldable pub record_name : Bool → Text → Database Schema → Outcome (Database Schema)
  record_name true name db = raised (other_error (codes "UniqueViolation"))
  record_name false name db =
      ok (record db { schema_migrations = some (name ∷ rows db.schema_migrations) })

  abbrev pub with_schema : Outcome Schema → Text → Database Schema → Outcome (Database Schema)
  with_schema (raised e) name db = raised e
  with_schema (ok schema) name db =
      record_name (is_among name (rows db.schema_migrations)) name (record db { schema = schema })

-- `execute` runs the statements of a file on the schema
module _ {Schema : Type 0} (execute : Text → Schema → Outcome Schema) where
  -- the statements and the row, in one transaction
  unfoldable pub transaction : Migration → Database Schema → Outcome (Database Schema)
  unfolding record_name
  transaction m db = with_schema (execute m.statements db.schema) m.filename db

  -- the loop over the files; `applied` is read before it
  unfoldable pub apply_each :
      List Text → List Migration → Database Schema → Outcome (Unit {0}) × Database Schema
  unfolding transaction
  apply_each applied [] db = (ok tt, db)
  apply_each applied (m ∷ files) db =
      let skipped = apply_each applied files db in
      let run : Outcome (Unit {0}) × Database Schema = elim (transaction m db) [
        | raised e ↦ (raised e, db)
        | ok after ↦ apply_each applied files after
      ] in
      if is_among m.filename applied then skipped else run

  -- pg_advisory_lock, CREATE TABLE IF NOT EXISTS, the loop, pg_advisory_unlock
  unfoldable pub apply_migrations :
      List Migration → Database Schema → Outcome (Unit {0}) × Database Schema
  unfolding apply_each in_order
  apply_migrations files db =
      let applied = rows db.schema_migrations in
      let (r, after) =
        apply_each applied (in_order files)
          (record db { schema_migrations = some applied; is_locked = true }) in
      (r, record after { is_locked = false })
