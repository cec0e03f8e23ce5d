-- ===== src/Migrations/Runs.antt =====
-- What a run of the migrations leaves (`apply_migrations`, backend/src/sovereign_rag/db.py).
use sovereign_rag.Base.{
  append-nil, ap, ◌∙◌, ◌≡◌, refl, sym, subst, inl, inr, some, List, [], ◌∷◌, ◌++◌, Bool, true,
  false, Bool-cases, not, if◌then◌else◌, Every,
}
use sovereign_rag.Text.{Text, same_text, same_text_refl}
use sovereign_rag.Effects.{Outcome, ok, raised}
use sovereign_rag.Migrations.{
  Migration, Database, in_order, is_among, rows, record_name, with_schema, transaction, apply_each,
  apply_migrations,
}
use sovereign_rag.Migrations.Parts.{Ran, IsPart, pending, apply_each-IsPart}

module _ {Schema : Type 0} (execute : Text → Schema → Outcome Schema) where
  -- what a run has written of a name stays
  abbrev IsRecorded : Database Schema → Text → Type 0
  IsRecorded db name = is_among name (rows db.schema_migrations) ≡ true

  abbrev IsMade : Database Schema → Type 0
  IsMade db = db.schema_migrations ≡ some (rows db.schema_migrations)

  -- what a transaction execute leaves in the table
  abbrev Wrote : Text → Database Schema → Database Schema → Type 0
  Wrote name db after =
      IsRecorded after name
      × ((other : Text) → IsRecorded db other → IsRecorded after other)
      × IsMade after

  record_name_lem :
      (t : Bool) (name : Text) (db after : Database Schema)
      → record_name t name db ≡ ok after
      → Wrote name db after
  unfolding record_name
  record_name_lem true name db after q = absurd (cc q)
  record_name_lem false name db after q =
      let written = record db { schema_migrations = some (name ∷ rows db.schema_migrations) } in
      let same : written ≡ after = cc q in
      (
        subst (λ d. IsRecorded d name) same (rw (same_text_refl name) refl),
        λ other h. subst (λ d. IsRecorded d other) same (kept other (same_text other name) h),
        subst IsMade same refl,
      )
    where
      kept :
          (other : Text) (t : Bool)
          → IsRecorded db other
          → (if t then true else is_among other (rows db.schema_migrations)) ≡ true
      kept other true h = refl
      kept other false h = h

  transaction_lem :
      (m : Migration) (db after : Database Schema)
      → transaction execute m db ≡ ok after
      → Wrote m.filename db after
  unfolding transaction
  transaction_lem m db after q = go (execute m.statements db.schema) q
    where
      go : (r : Outcome Schema) → with_schema r m.filename db ≡ ok after → Wrote m.filename db after
      go (raised e) k = absurd (cc k)
      go (ok schema) k =
          record_name_lem (is_among m.filename (rows db.schema_migrations)) m.filename
            (record db { schema = schema }) after k

  ran_lem :
      (files : List Migration) (db after : Database Schema)
      → Ran execute files db after
      → IsMade db
      → Every (λ m. IsRecorded after m.filename) files
        × ((name : Text) → IsRecorded db name → IsRecorded after name)
        × IsMade after
  ran_lem [] db after q made =
      (tt, λ name h. subst (λ d. IsRecorded d name) (sym q) h, subst IsMade (sym q) made)
  ran_lem (m ∷ files) db after (mid, (q, more)) made =
      let (own, old, made_mid) = transaction_lem m db mid q in
      let (each, later, made_after) = ran_lem files mid after more made_mid in
      ((later m.filename own, each), λ name h. later name (old name h), made_after)

  select_parts :
      (P : Migration → Type 0) (t : Bool) (m : Migration) (rest : List Migration)
      → Every P (if not t then m ∷ rest else rest)
      → (t ≡ false → P m) × Every P rest
  select_parts P true m rest h = (λ e. absurd (cc e), h)
  select_parts P false m rest (h, hs) = (λ e. h, hs)

  all-IsRecorded :
      (db after : Database Schema) (files : List Migration)
      → ((name : Text) → IsRecorded db name → IsRecorded after name)
      → Every (λ m. IsRecorded after m.filename) (pending execute (rows db.schema_migrations) files)
      → Every (λ m. IsRecorded after m.filename) files
  all-IsRecorded db after [] k h = tt
  all-IsRecorded db after (m ∷ files) k h =
      let known = is_among m.filename (rows db.schema_migrations) in
      let (new, rest) =
        select_parts (λ m. IsRecorded after m.filename) known m
          (pending execute (rows db.schema_migrations) files) h in
      (
        elim (Bool-cases known) [ inl e ↦ k m.filename e | inr e ↦ new e ],
        all-IsRecorded db after files k rest,
      )

  -- with every name in the table, nothing runs
  nothing_left :
      (applied : List Text) (files : List Migration) (db : Database Schema)
      → Every (λ m. is_among m.filename applied ≡ true) files
      → apply_each execute applied files db ≡ (ok tt, db)
  unfolding apply_each
  nothing_left applied [] db h = refl
  nothing_left applied (m ∷ files) db (h, hs) = rw h (nothing_left applied files db hs)

  -- a run of the migrations, and what a second one does to its result
  pub record IsMigrated (files : List Migration) (db : Database Schema) (r : Outcome (Unit {0}))
      (after : Database Schema) : Type 0 where
    pub released : after.is_locked ≡ false
    -- before the lock is released
    pub locked : Database Schema
    pub same_schema : after.schema ≡ locked.schema
    pub same_rows : after.schema_migrations ≡ locked.schema_migrations
    pub part :
        IsPart execute
          (pending execute (rows db.schema_migrations) (in_order files))
          (record db { schema_migrations = some (rows db.schema_migrations); is_locked = true })
          r
          locked
    pub again : r ≡ ok tt → apply_migrations execute files after ≡ (ok tt, after)

module _ {Schema : Type 0} (execute : Text → Schema → Outcome Schema) (files : List Migration) where
  -- the rows that a whole run leaves name every file
  whole_lem :
      (db after : Database Schema) (r : Outcome (Unit {0}))
      → IsMade execute db
      → IsPart execute (pending execute (rows db.schema_migrations) (in_order files)) db r after
      → r ≡ ok tt
      → Every (λ m. is_among m.filename (rows after.schema_migrations) ≡ true) (in_order files)
  whole_lem db after r made part e =
      let (each, old, made_after) = ran_lem execute part.done db after part.ran made in
      let all_done : pending execute (rows db.schema_migrations) (in_order files) ≡ part.done =
        part.split ∙ ap (λ ms. part.done ++ ms) (part.whole e) ∙ append-nil part.done in
      all-IsRecorded execute db after (in_order files) old (
        subst (Every (λ m. is_among m.filename (rows after.schema_migrations) ≡ true))
          (sym all_done) each)

  again_lem :
      (locked : Database Schema)
      → IsMade execute locked
      → Every (λ m. is_among m.filename (rows locked.schema_migrations) ≡ true) (in_order files)
      → apply_migrations execute files (record locked { is_locked = false })
        ≡ (ok tt, record locked { is_locked = false })
  unfolding apply_migrations
  again_lem locked made h =
      rw
        (nothing_left execute (rows locked.schema_migrations) (in_order files)
          (record locked {
            schema_migrations = some (rows locked.schema_migrations);
            is_locked = true;
          })
          h)
        (ap (λ t. (ok tt, record locked { schema_migrations = t; is_locked = false })) (sym made))

-- A run of the migrations ends with the lock released. An initial part of the pending files, in
-- the order in which they are sorted, has run, each whole and with its row. If the run returns,
-- that is all of them, and a second run then returns and changes nothing. If it raises, the first
-- of the other files raises that fault on the database as it is left.
pub apply_migrations-IsMigrated :
    {Schema : Type 0} (execute : Text → Schema → Outcome Schema) (files : List Migration)
    (db : Database Schema)
    → IsMigrated execute files db
        (apply_migrations execute files db).0
        (apply_migrations execute files db).1
unfolding apply_migrations
apply_migrations-IsMigrated execute files db =
    let applied = rows db.schema_migrations in
    let started = record db { schema_migrations = some applied; is_locked = true } in
    let run = apply_each execute applied (in_order files) started in
    let part = apply_each-IsPart execute applied (in_order files) started in
    let (each, old, made) = ran_lem execute part.done started run.1 part.ran refl in
    record {
      released = refl;
      locked = run.1;
      same_schema = refl;
      same_rows = refl;
      part = part;
      again = λ e.
          again_lem execute files run.1 made
            (whole_lem execute files started run.1 run.0 refl part e);
    }
