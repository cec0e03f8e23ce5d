-- ===== src/Pgvector/Fusion.antt =====
-- Reciprocal rank fusion, the cap on the chunks of one document, and the k best rows (the CTE fused
-- and the final SELECT).
use sovereign_rag.Base.{
  ℕ, ◌+◌, suc, Option, none, some, List, [], ◌∷◌, ◌++◌, map, Bool, not, ◌||◌, leb, ◌==◌,
  if◌then◌else◌, is_some, take, select, length, sort_by,
}
use sovereign_rag.Text.{Text}
use sovereign_rag.Store.{Uuid, SearchHit}
use sovereign_rag.Tables.{Tables, LexemeRow}
use sovereign_rag.Pgvector.{Passage, Postgres}
use sovereign_rag.Pgvector.Terms.{terms, tsq}
use sovereign_rag.Pgvector.Legs.{passages, retrievable, fts}

-- the arguments of the constructor; the server holds `weight_fts` and `ef_search`
pub record SearchSettings : Type 0 where
  pub candidates : ℕ
  pub rrf_k : ℕ
  -- 0 lifts the cap
  pub per_document_cap : ℕ

-- a row of a leg with its row_number()
pub record Placed (Vector : Type 0) : Type 0 where
  pub passage : Passage Vector
  pub rnk : ℕ

module _ {Vector : Type 0} where
  unfoldable pub number_from : ℕ → List (Passage Vector) → List (Placed Vector)
  number_from n [] = []
  number_from n (p ∷ rows) = record { passage = p; rnk = n } ∷ number_from (suc n) rows

  unfoldable pub rank_of : Uuid → List (Placed Vector) → Option ℕ
  rank_of id [] = none
  rank_of id (p ∷ leg) = if p.passage.chunk.id == id then some p.rnk else rank_of id leg

module _ {Vector Query Rank Score : Type 0} (pg : Postgres Vector Query Rank Score)
    (rrf_k : ℕ) where
  abbrev pub part : (ℕ → Score) → Option ℕ → Score
  part f none = pg.nothing
  part f (some rnk) = f (rrf_k + rnk)

  unfoldable pub row_of : Passage Vector → Option ℕ → Option ℕ → SearchHit Score
  row_of p vec_rank fts_rank = record {
    chunk_id = p.chunk.id;
    document_id = p.chunk.document_id;
    filename = p.document.filename;
    section = p.chunk.section;
    page = p.chunk.page;
    content = p.chunk.content;
    score = pg.plus (part pg.reciprocal vec_rank) (part pg.weighted fts_rank);
    vec_rank = vec_rank;
    fts_rank = fts_rank;
  }

  -- `vec FULL OUTER JOIN fts USING (id)`
  unfoldable pub fused : List (Placed Vector) → List (Placed Vector) → List (SearchHit Score)
  unfolding rank_of row_of
  fused vec fts =
      map (λ p. row_of p.passage (some p.rnk) (rank_of p.passage.chunk.id fts)) vec
      ++ map (λ p. row_of p.passage none (some p.rnk))
          (select (λ p. not (is_some (rank_of p.passage.chunk.id vec))) fts)

module _ {Score : Type 0} where
  abbrev pub hits_of : Uuid → List (SearchHit Score) → ℕ
  hits_of id hits = length (select (λ h. h.document_id == id) hits)

  -- `doc_rnk <= doc_cap`, with the better rows of the same document in `before`
  unfoldable pub diversified :
      ℕ → List (SearchHit Score) → List (SearchHit Score) → List (SearchHit Score)
  diversified doc_cap before [] = []
  diversified doc_cap before (h ∷ hits) =
      let rest = diversified doc_cap (h ∷ before) hits in
      if doc_cap == 0 || leb (suc (hits_of h.document_id before)) doc_cap then h ∷ rest else rest

module _ {Vector Query Rank Score : Type 0} (pg : Postgres Vector Query Rank Score)
    (settings : SearchSettings) where
  abbrev pub score_behind : SearchHit Score → SearchHit Score → Bool
  score_behind h g = pg.score_below h.score g.score

  -- the query over the joined rows, with the WHERE that both legs have
  unfoldable pub search_among :
      List (Passage Vector)
      → (Passage Vector → Bool)
      → List LexemeRow
      → Text
      → Vector
      → ℕ
      → List (SearchHit Score)
  unfolding number_from fused diversified terms tsq fts
  search_among rows where_holds df query_text qvec k =
      let n = settings.candidates in
      take k (
        diversified settings.per_document_cap [] (
          sort_by score_behind (
            fused pg settings.rrf_k (number_from 1 (pg.nearest qvec n where_holds rows)) (
              number_from 1
                (fts pg (tsq pg (terms pg df query_text)) n (select where_holds rows))))))

  -- HYBRID_SEARCH
  unfoldable pub search_rows : Tables Vector → Text → Vector → Text → ℕ → List (SearchHit Score)
  unfolding search_among passages retrievable
  search_rows t query_text qvec user_id k =
      search_among (passages t.documents t.chunks) (retrievable user_id t.permissions) t.lexeme_df
        query_text qvec k
