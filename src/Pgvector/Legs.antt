-- ===== src/Pgvector/Legs.antt =====
-- The two legs of the query, each over the chunks that the user may see (the CTEs vec, fts_strict,
-- fts_relaxed and fts).
use sovereign_rag.Base.{
  ℕ, Option, none, some, List, [], ◌∷◌, ◌++◌, Bool, true, false, ◌&&◌, take, select, is_empty,
  sort_by,
}
use sovereign_rag.Text.{Text}
use sovereign_rag.Tables.{Document, is_ready, Permission, Chunk, Tables, visible_to, document_of}
use sovereign_rag.Pgvector.{Passage, Postgres}
use sovereign_rag.Pgvector.Terms.{TsQuery}

module _ {Vector : Type 0} where
  abbrev pub with_document :
      Option Document → Chunk Vector → List (Passage Vector) → List (Passage Vector)
  with_document none c rest = rest
  with_document (some d) c rest = record { chunk = c; document = d } ∷ rest

  -- the join of chunks and documents
  unfoldable pub passages : List Document → List (Chunk Vector) → List (Passage Vector)
  passages documents [] = []
  passages documents (c ∷ chunks) =
      with_document (document_of c.document_id documents) c (passages documents chunks)

  -- `d.status = 'ready'` and ACL_PREDICATE
  unfoldable pub retrievable : Text → List Permission → Passage Vector → Bool
  retrievable user_id permissions p =
      is_ready p.document.status && visible_to user_id permissions p.document

  unfoldable pub candidates : Text → Tables Vector → List (Passage Vector)
  unfolding passages retrievable
  candidates user_id t = select (retrievable user_id t.permissions) (passages t.documents t.chunks)

module _ {Vector Query Rank Score : Type 0} (pg : Postgres Vector Query Rank Score) where
  abbrev pub rank_by : Query → Passage Vector → Rank
  rank_by query p = pg.ts_rank_cd p.chunk.content query

  -- the rows that match, the best first
  unfoldable pub by_rank : Query → List (Passage Vector) → List (Passage Vector)
  by_rank query rows =
      sort_by (λ p q. pg.rank_below (rank_by query p) (rank_by query q))
        (select (λ p. pg.matches p.chunk.content query) rows)

  -- `WHERE top.r >= 0.6 * top.rmax`, where the first row has the best rank
  abbrev pub above_floor : Query → List (Passage Vector) → List (Passage Vector)
  above_floor query [] = []
  above_floor query (best ∷ rows) =
      select (λ p. pg.reaches_floor (rank_by query p) (rank_by query best)) (best ∷ rows)

  unfoldable pub fts_strict :
      Option (TsQuery pg) → ℕ → List (Passage Vector) → List (Passage Vector)
  unfolding by_rank
  fts_strict none n rows = []
  fts_strict (some q) n rows = take n (by_rank q.strict rows)

  -- `NOT EXISTS (SELECT 1 FROM fts_strict)` is the first argument
  unfoldable pub fts_relaxed :
      Bool → Option (TsQuery pg) → ℕ → List (Passage Vector) → List (Passage Vector)
  unfolding by_rank
  fts_relaxed false q n rows = []
  fts_relaxed true none n rows = []
  fts_relaxed true (some q) n rows = above_floor q.relaxed (take n (by_rank q.relaxed rows))

  unfoldable pub fts : Option (TsQuery pg) → ℕ → List (Passage Vector) → List (Passage Vector)
  unfolding fts_strict fts_relaxed
  fts q n rows =
      let strict = fts_strict q n rows in strict ++ fts_relaxed (is_empty strict) q n rows
