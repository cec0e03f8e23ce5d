-- ===== src/Pgvector/Best.antt =====
-- The rows that the query returns: how many, of which documents, in which order, and none twice
-- (backend/src/sovereign_rag/store/pgvector.py).
use sovereign_rag.Base.{
  Bool, Every-weaken, ◌∷◌, ℕ, ◌≤◌, ◌<◌, ◌≡◌, sym, none, some, List, [], map, not, is_some, select,
  length, length-take, arith, Every, Every-of, IsTotal, IsOrdered, sort_by, sort_by-IsOrdered,
  take-IsOrdered, IsKeyed, take-IsKeyed, sort_by-IsKeyed, select-IsKeyed, append-IsKeyed,
}
use sovereign_rag.Text.{Text}
use sovereign_rag.Store.{Uuid, SearchHit}
use sovereign_rag.Tables.{Tables}
use sovereign_rag.Tables.Rows.{select-IsIn}
use sovereign_rag.Pgvector.{Passage, Postgres}
use sovereign_rag.Pgvector.Terms.{tsq, terms}
use sovereign_rag.Pgvector.Legs.{passages, retrievable, candidates, fts}
use sovereign_rag.Pgvector.Fusion.{
  SearchSettings, Placed, number_from, rank_of, row_of, fused, hits_of, diversified, search_among,
  search_rows, score_behind,
}
use sovereign_rag.Pgvector.Ranked.{
  chunk_key, placed_key, hit_key, rank_of-none, shown-IsKeyed, shown_away, number_from-IsKeyed,
  fts-IsKeyed, candidates-IsKeyed, diversified-capped, diversified-IsOrdered, diversified-IsKeyed,
  hits_of-take,
}

module _ {Vector Query Rank Score : Type 0} (pg : Postgres Vector Query Rank Score) where
  -- the ranked rows of the text leg that the vector leg does not have
  only_fts :
      (vec leg : List (Placed Vector))
      → Every
          (λ p. Every (λ v. placed_key v ≡ placed_key p → ⊥) vec)
          (select (λ p. not (is_some (rank_of (placed_key p) vec))) leg)
  only_fts vec leg = Every-of _ _ λ p i.
      let (_, e) = select-IsIn (λ x. not (is_some (rank_of (placed_key x) vec))) p leg i in
      rank_of-none (placed_key p) vec (ground arith)

  fused-IsKeyed :
      (rrf_k : ℕ) (vec leg : List (Placed Vector))
      → IsKeyed placed_key vec
      → IsKeyed placed_key leg
      → IsKeyed (hit_key pg rrf_k) (fused pg rrf_k vec leg)
  unfolding fused row_of
  fused-IsKeyed rrf_k vec leg kv kl =
      append-IsKeyed (hit_key pg rrf_k) _ _
        (shown-IsKeyed pg rrf_k (λ p. some p.rnk) (λ p. rank_of (placed_key p) leg) vec kv)
        (shown-IsKeyed pg rrf_k (λ p. none) (λ p. some p.rnk) _
          (select-IsKeyed placed_key _ leg kl))
        (apart vec (only_fts vec leg))
    where
      rest : List (Placed Vector)
      rest = select (λ p. not (is_some (rank_of (placed_key p) vec))) leg

      apart :
          (shown : List (Placed Vector))
          → Every (λ p. Every (λ v. placed_key v ≡ placed_key p → ⊥) shown) rest
          → Every
              (λ h.
                Every
                  (λ g. g.chunk_id ≡ h.chunk_id → ⊥)
                  (map (λ p. row_of pg rrf_k p.passage none (some p.rnk)) rest))
              (map (λ p. row_of pg rrf_k p.passage (some p.rnk) (rank_of (placed_key p) leg)) shown)
      apart [] h = tt
      apart (v ∷ shown) h = (
        shown_away pg rrf_k (λ p. none) (λ p. some p.rnk) (placed_key v) rest
            (Every-weaken _ _ (λ p k q. k.0 (sym q)) rest h),
        apart shown (Every-weaken _ _ (λ p k. k.1) rest h),
      )

module _ {Vector Query Rank Score : Type 0} (pg : Postgres Vector Query Rank Score)
    (settings : SearchSettings) where
  -- at most `k` hits, at most the cap of each document unless it is 0, in the order of the scores,
  -- and no chunk twice
  pub record IsPage (k : ℕ) (hits : List (SearchHit Score)) : Type 0 where
    pub bounded : length hits ≤ k
    pub capped :
        0 < settings.per_document_cap → (id : Uuid) → hits_of id hits ≤ settings.per_document_cap
    pub ordered : IsOrdered (score_behind pg settings) hits
    pub distinct : IsKeyed (λ h. h.chunk_id) hits

  -- an ORDER BY … LIMIT repeats no row
  abbrev pub RepeatsNone : Type 0
  RepeatsNone =
      (v : Vector) (n : ℕ) (where_holds : Passage Vector → Bool) (rows : List (Passage Vector))
      → IsKeyed chunk_key (select where_holds rows)
      → IsKeyed chunk_key (pg.nearest v n where_holds rows)

  -- Let the scores be totally ordered, let the vector index repeat no row of those for which the
  -- condition of the query holds, and let no two chunks share an identifier. A search returns at
  -- most k hits, at most the cap of each document unless the cap is 0, in the order of their
  -- scores, the best first, and no chunk twice.
  pub search_rows-IsPage :
      IsTotal (score_behind pg settings)
      → RepeatsNone
      → (t : Tables Vector) (query_text : Text) (qvec : Vector) (user_id : Text) (k : ℕ)
      → IsKeyed (λ c. c.id) t.chunks
      → IsPage k (search_rows pg settings t query_text qvec user_id k)
  unfolding search_rows search_among candidates
  search_rows-IsPage total once t query_text qvec user_id k keyed =
      let n = settings.candidates in
      let rows = candidates user_id t in
      let rows_keyed = candidates-IsKeyed user_id t keyed in
      let all_rows = passages t.documents t.chunks in
      let where_holds = retrievable user_id t.permissions in
      let vec = number_from 1 (pg.nearest qvec n where_holds all_rows) in
      let leg = number_from 1 (fts pg (tsq pg (terms pg t.lexeme_df query_text)) n rows) in
      let all = sort_by (score_behind pg settings) (fused pg settings.rrf_k vec leg) in
      let best = diversified settings.per_document_cap [] all in
      record {
        bounded = omega (arith, length-take k best);
        capped = λ pos id. omega (
          arith,
          hits_of-take id k best,
          diversified-capped settings.per_document_cap id [] all pos,
        );
        ordered = take-IsOrdered _ k best (
            diversified-IsOrdered settings.per_document_cap _ [] all
              (sort_by-IsOrdered _ total (fused pg settings.rrf_k vec leg)));
        distinct = take-IsKeyed _ k best (
            diversified-IsKeyed settings.per_document_cap [] all (
              sort_by-IsKeyed _ _ _ (
                fused-IsKeyed pg settings.rrf_k vec leg
                  (number_from-IsKeyed 1 _ (once qvec n where_holds all_rows rows_keyed))
                  (number_from-IsKeyed 1 _ (fts-IsKeyed pg _ n rows rows_keyed)))));
      }
