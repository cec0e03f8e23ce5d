-- ===== src/Pgvector/Ranked.antt =====
-- How the hits are ranked, capped and told apart (the final SELECT of
-- backend/src/sovereign_rag/store/pgvector.py).
use sovereign_rag.Base.{
  ℕ, zero, suc, ◌-◌, ◌≤◌, ◌<◌, ◌≡◌, Option, none, some, List, [], ◌∷◌, ◌++◌, append-nil, map, Bool,
  false, is_some, is_empty, take, arith, Bool-cases, inl, inr, ◌==◌, ==_iff, Every, IsOrdered,
  IsKeyed, take-IsKeyed, sort_by-IsKeyed, select-IsKeyed,
}
use sovereign_rag.Text.{Text}
use sovereign_rag.Store.{Uuid, SearchHit}
use sovereign_rag.Tables.{Document, Chunk, Tables, document_of}
use sovereign_rag.Pgvector.{Passage, Postgres}
use sovereign_rag.Pgvector.Terms.{TsQuery}
use sovereign_rag.Pgvector.Legs.{
  with_document, passages, candidates, by_rank, above_floor, rank_by, fts_strict, fts_relaxed, fts,
}
use sovereign_rag.Pgvector.Fusion.{Placed, number_from, rank_of, row_of, hits_of, diversified}
use sovereign_rag.Pgvector.Retrieved.{Every-diversified}

module _ {Score : Type 0} (doc_cap : ℕ) where
  pub diversified-capped :
      (id : Uuid) (before hits : List (SearchHit Score))
      → 0 < doc_cap
      → hits_of id (diversified doc_cap before hits) ≤ doc_cap - hits_of id before
  unfolding diversified
  diversified-capped id before [] pos = omega arith
  diversified-capped id before (h ∷ hits) pos = elim (Bool-cases (h.document_id == id)) [
    | inl e ↦
        let same : h.document_id ≡ id = (==_iff h.document_id id).0 e in
        ground (arith, diversified-capped id (h ∷ before) hits pos)
    | inr e ↦ ground (arith, diversified-capped id (h ∷ before) hits pos)
  ]

  pub diversified-IsOrdered :
      (below : SearchHit Score → SearchHit Score → Bool) (before hits : List (SearchHit Score))
      → IsOrdered below hits
      → IsOrdered below (diversified doc_cap before hits)
  unfolding diversified
  diversified-IsOrdered below before [] r = tt
  diversified-IsOrdered below before (h ∷ hits) r =
      let rest = diversified-IsOrdered below (h ∷ before) hits r.1 in
      let behind = Every-diversified (λ y. below h y ≡ false) doc_cap (h ∷ before) hits r.0 in
      ground (arith, rest, behind)

  pub diversified-IsKeyed :
      (before hits : List (SearchHit Score))
      → IsKeyed (λ h. h.chunk_id) hits
      → IsKeyed (λ h. h.chunk_id) (diversified doc_cap before hits)
  unfolding diversified
  diversified-IsKeyed before [] r = tt
  diversified-IsKeyed before (h ∷ hits) r =
      let rest = diversified-IsKeyed (h ∷ before) hits r.1 in
      let apart =
        Every-diversified (λ y. y.chunk_id ≡ h.chunk_id → ⊥) doc_cap (h ∷ before) hits r.0 in
      ground (arith, rest, apart)

pub hits_of-take :
    {Score : Type 0} (id : Uuid) (k : ℕ) (hits : List (SearchHit Score))
    → hits_of id (take k hits) ≤ hits_of id hits
hits_of-take id zero hits = omega arith
hits_of-take id (suc k) [] = omega arith
hits_of-take id (suc k) (h ∷ hits) = ground (arith, hits_of-take id k hits)

module _ {Vector : Type 0} where
  abbrev pub chunk_key : Passage Vector → Uuid
  chunk_key p = p.chunk.id

  abbrev pub placed_key : Placed Vector → Uuid
  placed_key p = p.passage.chunk.id

  abbrev AwayFrom : Uuid → Passage Vector → Type 0
  AwayFrom id p = p.chunk.id ≡ id → ⊥

  away_with :
      (id : Uuid) (found : Option Document) (c : Chunk Vector) (rest : List (Passage Vector))
      → (c.id ≡ id → ⊥)
      → Every (AwayFrom id) rest
      → Every (AwayFrom id) (with_document found c rest)
  away_with id none c rest n h = h
  away_with id (some d) c rest n h = (n, h)

  passages_away :
      (documents : List Document) (id : Uuid) (chunks : List (Chunk Vector))
      → Every (λ c. c.id ≡ id → ⊥) chunks
      → Every (AwayFrom id) (passages documents chunks)
  unfolding passages
  passages_away documents id [] h = tt
  passages_away documents id (c ∷ chunks) h =
      away_with id (document_of c.document_id documents) c _ h.0
        (passages_away documents id chunks h.1)

  IsKeyed-with :
      (found : Option Document) (c : Chunk Vector) (rest : List (Passage Vector))
      → Every (AwayFrom c.id) rest
      → IsKeyed chunk_key rest
      → IsKeyed chunk_key (with_document found c rest)
  IsKeyed-with none c rest a k = k
  IsKeyed-with (some d) c rest a k = (a, k)

  passages-IsKeyed :
      (documents : List Document) (chunks : List (Chunk Vector))
      → IsKeyed (λ c. c.id) chunks
      → IsKeyed chunk_key (passages documents chunks)
  unfolding passages
  passages-IsKeyed documents [] k = tt
  passages-IsKeyed documents (c ∷ chunks) k =
      IsKeyed-with (document_of c.document_id documents) c _
        (passages_away documents c.id chunks k.0) (passages-IsKeyed documents chunks k.1)

  pub candidates-IsKeyed :
      (user_id : Text) (t : Tables Vector)
      → IsKeyed (λ c. c.id) t.chunks
      → IsKeyed chunk_key (candidates user_id t)
  unfolding candidates
  candidates-IsKeyed user_id t k =
      select-IsKeyed chunk_key _ _ (passages-IsKeyed t.documents t.chunks k)

  number_away :
      (id n : ℕ) (rows : List (Passage Vector))
      → Every (AwayFrom id) rows
      → Every (λ p. placed_key p ≡ id → ⊥) (number_from n rows)
  unfolding number_from
  number_away id n [] h = tt
  number_away id n (p ∷ rows) h = (h.0, number_away id (suc n) rows h.1)

  pub number_from-IsKeyed :
      (n : ℕ) (rows : List (Passage Vector))
      → IsKeyed chunk_key rows
      → IsKeyed placed_key (number_from n rows)
  unfolding number_from
  number_from-IsKeyed n [] k = tt
  number_from-IsKeyed n (p ∷ rows) k =
      (number_away p.chunk.id (suc n) rows k.0, number_from-IsKeyed (suc n) rows k.1)

  -- a row that the leg does not rank
  pub rank_of-none :
      (id : Uuid) (leg : List (Placed Vector))
      → is_some (rank_of id leg) ≡ false
      → Every (λ p. placed_key p ≡ id → ⊥) leg
  unfolding rank_of
  rank_of-none id [] e = tt
  rank_of-none id (p ∷ leg) e = elim (Bool-cases (p.passage.chunk.id == id)) [
    | inl same ↦ absurd (ground arith)
    | inr other ↦
        ((λ q. ground (arith, ==_iff p.passage.chunk.id id)), rank_of-none id leg (ground arith))
  ]

module _ {Vector Query Rank Score : Type 0} (pg : Postgres Vector Query Rank Score) where
  by_rank-IsKeyed :
      (q : Query) (rows : List (Passage Vector))
      → IsKeyed chunk_key rows
      → IsKeyed chunk_key (by_rank pg q rows)
  unfolding by_rank
  by_rank-IsKeyed q rows k = sort_by-IsKeyed chunk_key _ _ (select-IsKeyed chunk_key _ rows k)

  above_floor-IsKeyed :
      (q : Query) (rows : List (Passage Vector))
      → IsKeyed chunk_key rows
      → IsKeyed chunk_key (above_floor pg q rows)
  above_floor-IsKeyed q [] k = k
  above_floor-IsKeyed q (best ∷ rows) k =
      select-IsKeyed chunk_key (λ p. pg.reaches_floor (rank_by pg q p) (rank_by pg q best))
        (best ∷ rows) k

  fts_strict-IsKeyed :
      (q : Option (TsQuery pg)) (n : ℕ) (rows : List (Passage Vector))
      → IsKeyed chunk_key rows
      → IsKeyed chunk_key (fts_strict pg q n rows)
  unfolding fts_strict
  fts_strict-IsKeyed none n rows k = tt
  fts_strict-IsKeyed (some q) n rows k =
      take-IsKeyed chunk_key n _ (by_rank-IsKeyed q.strict rows k)

  -- one of the two passes is empty
  joined_passes :
      (q : Option (TsQuery pg)) (n : ℕ) (rows strict : List (Passage Vector))
      → IsKeyed chunk_key rows
      → IsKeyed chunk_key strict
      → IsKeyed chunk_key (strict ++ fts_relaxed pg (is_empty strict) q n rows)
  unfolding fts_relaxed
  joined_passes none n rows [] k s = tt
  joined_passes (some q) n rows [] k s =
      above_floor-IsKeyed q.relaxed _
        (take-IsKeyed chunk_key n _ (by_rank-IsKeyed q.relaxed rows k))
  joined_passes q n rows (p ∷ strict) k s = rw (append-nil strict) s

  pub fts-IsKeyed :
      (q : Option (TsQuery pg)) (n : ℕ) (rows : List (Passage Vector))
      → IsKeyed chunk_key rows
      → IsKeyed chunk_key (fts pg q n rows)
  unfolding fts
  fts-IsKeyed q n rows k = joined_passes q n rows _ k (fts_strict-IsKeyed q n rows k)

  module _ (rrf_k : ℕ) where
    abbrev pub hit_key : SearchHit Score → Uuid
    hit_key h = h.chunk_id

    abbrev pub shown :
        (Placed Vector → Option ℕ) → (Placed Vector → Option ℕ) → Placed Vector → SearchHit Score
    shown v f p = row_of pg rrf_k p.passage (v p) (f p)

    pub shown_away :
        (v f : Placed Vector → Option ℕ) (id : Uuid) (leg : List (Placed Vector))
        → Every (λ p. placed_key p ≡ id → ⊥) leg
        → Every (λ h. hit_key h ≡ id → ⊥) (map (shown v f) leg)
    unfolding row_of
    shown_away v f id [] h = tt
    shown_away v f id (p ∷ leg) h = (h.0, shown_away v f id leg h.1)

    pub shown-IsKeyed :
        (v f : Placed Vector → Option ℕ) (leg : List (Placed Vector))
        → IsKeyed placed_key leg
        → IsKeyed hit_key (map (shown v f) leg)
    unfolding row_of
    shown-IsKeyed v f [] k = tt
    shown-IsKeyed v f (p ∷ leg) k =
        (shown_away v f p.passage.chunk.id leg k.0, shown-IsKeyed v f leg k.1)
