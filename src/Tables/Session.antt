-- ===== src/Tables/Session.antt =====
-- A connection of the pool: its statements run on the tables, and are committed together or not at
-- all (psycopg's `connection()` and `transaction()`).
use sovereign_rag.Base.{ℕ}
use sovereign_rag.Effects.{Outcome, ok, raised, Run}
use sovereign_rag.Store.{Uuid}
use sovereign_rag.Tables.{Tables}

-- the world and the tables
pub record Site (W Vector : Type 0) : Type 0 where
  pub world : W
  pub tables : Tables Vector

pub record Server (W : Type 0) : Type 0 where
  -- does a connection come, and do its statements run
  pub statement : Run W (Unit {0})
  -- gen_random_uuid(), and now()
  pub uuid : W → Uuid × W
  pub now : W → ℕ × W

module _ {W Vector A : Type 0} where
  -- a component that does not know the tables
  unfoldable pub on_site : Run W A → Run (Site W Vector) A
  on_site m s = let (r, w) = m s.world in (r, record s { world = w })

  -- what does not raise
  unfoldable pub drawn : (W → A × W) → Run (Site W Vector) A
  drawn f s = let (a, w) = f s.world in (ok a, record s { world = w })

  -- where a statement raises, nothing is committed
  abbrev pub commit : Outcome (A × Tables Vector) → Run (Site W Vector) A
  commit (ok (a, t)) s = (ok a, record s { tables = t })
  commit (raised e) s = (raised e, s)

  abbrev pub begin :
      Outcome (Unit {0}) → (Tables Vector → Outcome (A × Tables Vector)) → Run (Site W Vector) A
  begin (ok _) f s = commit (f s.tables) s
  begin (raised e) f s = (raised e, s)

  unfoldable pub transaction :
      Server W → (Tables Vector → Outcome (A × Tables Vector)) → Run (Site W Vector) A
  transaction server f s =
      let (r, w) = server.statement s.world in begin r f (record s { world = w })
