-- ===== src/Migrations/Tests.antt =====
-- Two migrations on a schema that is a list of numbers; the second fails on a full schema.
use sovereign_rag.Base.{
  false, ℕ, ◌≡◌, refl, ltb, none, some, List, [], ◌∷◌, if◌then◌else◌, length, sort_by, insert_by,
}
use sovereign_rag.Text.{Text, codes, same_text}
use sovereign_rag.Effects.{Outcome, ok, raised, other_error}
use sovereign_rag.Migrations.{
  Migration, Database, before_text, in_order, record_name, transaction, apply_each,
  apply_migrations,
}
use sovereign_rag.Migrations.Runs.{IsMigrated, apply_migrations-IsMigrated}

execute : Text → List ℕ → Outcome (List ℕ)
execute statements schema =
    if ltb 2 (length schema)
    then raised (other_error (codes "full"))
    else ok (length statements ∷ schema)

abbrev two_files : List Migration
two_files =
    record { filename = codes "0002.sql"; statements = codes "ab" }
    ∷ record { filename = codes "0001.sql"; statements = codes "a" }
    ∷ []

abbrev fresh : Database (List ℕ)
fresh = record { schema = []; schema_migrations = none; is_locked = false }

abbrev nearly_full : Database (List ℕ)
nearly_full = record { schema = 7 ∷ 7 ∷ []; schema_migrations = none; is_locked = false }

apply_migrations-IsMigrated_example :
    IsMigrated execute two_files fresh
      (apply_migrations execute two_files fresh).0
      (apply_migrations execute two_files fresh).1
apply_migrations-IsMigrated_example = apply_migrations-IsMigrated execute two_files fresh

migrated :
    (apply_migrations execute two_files fresh ≡ (
      ok tt,
      record {
        schema = 2 ∷ 1 ∷ [];
        schema_migrations = some (codes "0002.sql" ∷ codes "0001.sql" ∷ []);
        is_locked = false;
      },
    ))
    × (apply_migrations execute two_files nearly_full ≡ (
      raised (other_error (codes "full")),
      record {
        schema = 1 ∷ 7 ∷ 7 ∷ [];
        schema_migrations = some (codes "0001.sql" ∷ []);
        is_locked = false;
      },
    ))
unfolding apply_migrations apply_each transaction record_name in_order sort_by insert_by before_text
    execute same_text
migrated = (refl, refl)
