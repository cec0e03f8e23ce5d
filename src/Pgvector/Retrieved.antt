-- ===== src/Pgvector/Retrieved.antt =====
-- Where the hits come from (the two legs and the fusion of
-- backend/src/sovereign_rag/store/pgvector.py).
use sovereign_rag.Base.{
  select, ℕ, suc, ◌≡◌, refl, sym, Option, none, some, List, [], ◌∷◌, map, Bool, true, false, ◌||◌,
  is_some, arith, inl, inr, Every, Every-append, Every-take, Every-select, Every-weaken, Every-IsIn,
  Every-of, IsIn, Every-sort_by,
}
use sovereign_rag.Text.{Text}
use sovereign_rag.Store.{SearchHit}
use sovereign_rag.Tables.{
  LexemeRow, Document, DocumentStatus, processing, ready, failed, is_ready, Chunk, Tables,
  document_of,
}
use sovereign_rag.Tables.Rows.{MaySee, visible_to-MaySee, document_of-IsIn, select-IsIn}
use sovereign_rag.Pgvector.{Passage, Postgres}
use sovereign_rag.Pgvector.Terms.{TsQuery}
use sovereign_rag.Pgvector.Legs.{
  with_document, passages, retrievable, candidates, by_rank, above_floor, fts_strict, fts_relaxed,
  fts, rank_by,
}
use sovereign_rag.Pgvector.Fusion.{
  SearchSettings, Placed, number_from, rank_of, row_of, fused, diversified, search_among,
  search_rows,
}

module _ {Vector : Type 0} (user_id : Text) (t : Tables Vector) where
  -- a chunk of the tables with its document, which is ready and which the user may see
  pub record IsCandidate (p : Passage Vector) : Type 0 where
    pub chunk_stored : IsIn p.chunk t.chunks
    pub document_stored : IsIn p.document t.documents
    pub joined : p.chunk.document_id ≡ p.document.id
    pub is_complete : p.document.status ≡ ready
    pub may_see : MaySee user_id t.permissions p.document

  pub record IsRetrieved {Score : Type 0} (h : SearchHit Score) : Type 0 where
    pub passage : Passage Vector
    pub candidate : IsCandidate passage
    pub chunk_named : h.chunk_id ≡ passage.chunk.id
    pub document_named : h.document_id ≡ passage.document.id
    pub file_named : h.filename ≡ passage.document.filename
    pub section_named : h.section ≡ passage.chunk.section
    pub page_named : h.page ≡ passage.chunk.page
    pub quoted : h.content ≡ passage.chunk.content
    pub found : (is_some h.vec_rank || is_some h.fts_rank) ≡ true

is_ready_lem : (s : DocumentStatus) → is_ready s ≡ true → s ≡ ready
is_ready_lem ready e = refl
is_ready_lem processing e = absurd (cc e)
is_ready_lem failed e = absurd (cc e)

module _ {Vector : Type 0} where
  abbrev Joined : List Document → List (Chunk Vector) → Passage Vector → Type 0
  Joined documents chunks p =
      IsIn p.chunk chunks × IsIn p.document documents × (p.chunk.document_id ≡ p.document.id)

  with_document-Joined :
      (documents : List Document) (c : Chunk Vector) (chunks : List (Chunk Vector))
      (found : Option Document) (rest : List (Passage Vector))
      → document_of c.document_id documents ≡ found
      → Every (Joined documents (c ∷ chunks)) rest
      → Every (Joined documents (c ∷ chunks)) (with_document found c rest)
  with_document-Joined documents c chunks none rest e h = h
  with_document-Joined documents c chunks (some d) rest e h =
      let (i, same) = document_of-IsIn c.document_id documents d e in ((inl refl, i, sym same), h)

  passages-Joined :
      (documents : List Document) (chunks : List (Chunk Vector))
      → Every (Joined documents chunks) (passages documents chunks)
  unfolding passages
  passages-Joined documents [] = tt
  passages-Joined documents (c ∷ chunks) =
      with_document-Joined documents c chunks (document_of c.document_id documents) _ refl
        (Every-weaken _ _ (λ p j. (inr j.0, j.1, j.2)) _ (passages-Joined documents chunks))

  pub candidates-IsCandidate :
      (user_id : Text) (t : Tables Vector) → Every (IsCandidate user_id t) (candidates user_id t)
  unfolding candidates retrievable
  candidates-IsCandidate user_id t = Every-of _ _ λ p i.
      let (j, e) = select-IsIn (retrievable user_id t.permissions) p _ i in
      let all = Every-IsIn _ p _ (passages-Joined t.documents t.chunks) j in
      record {
        chunk_stored = all.0;
        document_stored = all.1;
        joined = all.2;
        is_complete = is_ready_lem p.document.status (ground arith);
        may_see = visible_to-MaySee user_id t.permissions p.document (ground arith);
      }

module _ {Vector Query Rank Score : Type 0} (pg : Postgres Vector Query Rank Score)
    (P : Passage Vector → Type 0) where
  by_rank-Every :
      (q : Query) (rows : List (Passage Vector)) → Every P rows → Every P (by_rank pg q rows)
  unfolding by_rank
  by_rank-Every q rows h = Every-sort_by _ P _ (Every-select P _ rows h)

  above_floor-Every :
      (q : Query) (rows : List (Passage Vector)) → Every P rows → Every P (above_floor pg q rows)
  above_floor-Every q [] h = h
  above_floor-Every q (best ∷ rows) h =
      Every-select P (λ p. pg.reaches_floor (rank_by pg q p) (rank_by pg q best)) (best ∷ rows) h

  fts_strict-Every :
      (q : Option (TsQuery pg)) (n : ℕ) (rows : List (Passage Vector))
      → Every P rows
      → Every P (fts_strict pg q n rows)
  unfolding fts_strict
  fts_strict-Every none n rows h = tt
  fts_strict-Every (some q) n rows h = Every-take P n _ (by_rank-Every q.strict rows h)

  fts_relaxed-Every :
      (b : Bool) (q : Option (TsQuery pg)) (n : ℕ) (rows : List (Passage Vector))
      → Every P rows
      → Every P (fts_relaxed pg b q n rows)
  unfolding fts_relaxed
  fts_relaxed-Every false q n rows h = tt
  fts_relaxed-Every true none n rows h = tt
  fts_relaxed-Every true (some q) n rows h =
      above_floor-Every q.relaxed _ (Every-take P n _ (by_rank-Every q.relaxed rows h))

  pub fts-Every :
      (q : Option (TsQuery pg)) (n : ℕ) (rows : List (Passage Vector))
      → Every P rows
      → Every P (fts pg q n rows)
  unfolding fts
  fts-Every q n rows h =
      Every-append P _ _ (fts_strict-Every q n rows h) (fts_relaxed-Every _ q n rows h)

  abbrev PlacedHas : Placed Vector → Type 0
  PlacedHas p = P p.passage

  pub number_from-Every :
      (n : ℕ) (rows : List (Passage Vector)) → Every P rows → Every PlacedHas (number_from n rows)
  unfolding number_from
  number_from-Every n [] h = tt
  number_from-Every n (p ∷ rows) h = (h.0, number_from-Every (suc n) rows h.1)

  -- the hit shows a row of `P` and at least one rank
  record Shows (rrf_k : ℕ) (h : SearchHit Score) : Type 0 where
    pub passage : Passage Vector
    pub has : P passage
    pub vec_rank : Option ℕ
    pub fts_rank : Option ℕ
    pub same : h ≡ row_of pg rrf_k passage vec_rank fts_rank
    pub found : (is_some vec_rank || is_some fts_rank) ≡ true

  module _ (rrf_k : ℕ) where
    vec_rows :
        (fts_leg vec : List (Placed Vector))
        → Every PlacedHas vec
        → Every (Shows rrf_k) (
            map
              (λ p. row_of pg rrf_k p.passage (some p.rnk) (rank_of p.passage.chunk.id fts_leg))
              vec)
    vec_rows fts_leg [] h = tt
    vec_rows fts_leg (p ∷ vec) h = (
      record {
        passage = p.passage;
        has = h.0;
        vec_rank = some p.rnk;
        fts_rank = rank_of p.passage.chunk.id fts_leg;
        same = refl;
        found = refl;
      },
      vec_rows fts_leg vec h.1,
    )

    fts_rows :
        (leg : List (Placed Vector))
        → Every PlacedHas leg
        → Every (Shows rrf_k) (map (λ p. row_of pg rrf_k p.passage none (some p.rnk)) leg)
    fts_rows [] h = tt
    fts_rows (p ∷ leg) h = (
      record {
        passage = p.passage;
        has = h.0;
        vec_rank = none;
        fts_rank = some p.rnk;
        same = refl;
        found = refl;
      },
      fts_rows leg h.1,
    )

    fused-Shows :
        (vec fts_leg : List (Placed Vector))
        → Every PlacedHas vec
        → Every PlacedHas fts_leg
        → Every (Shows rrf_k) (fused pg rrf_k vec fts_leg)
    unfolding fused
    fused-Shows vec fts_leg h k =
        Every-append _ _ _ (vec_rows fts_leg vec h) (fts_rows _ (Every-select _ _ fts_leg k))

pub Every-diversified :
    {Score : Type 0} (P : SearchHit Score → Type 0) (doc_cap : ℕ)
    (before hits : List (SearchHit Score))
    → Every P hits
    → Every P (diversified doc_cap before hits)
unfolding diversified
Every-diversified P doc_cap before [] h = tt
Every-diversified P doc_cap before (x ∷ hits) h =
    let rest = Every-diversified P doc_cap (x ∷ before) hits h.1 in ground (arith, rest, h.0)

module _ {Vector Query Rank Score : Type 0} (pg : Postgres Vector Query Rank Score)
    (settings : SearchSettings) where
  -- what WHERE … ORDER BY … LIMIT gives are rows of the table for which the condition holds
  abbrev pub ScansRows : Type 0
  ScansRows =
      (v : Vector) (n : ℕ) (where_holds : Passage Vector → Bool) (rows : List (Passage Vector))
      → Every (λ p. IsIn p (select where_holds rows)) (pg.nearest v n where_holds rows)

  shown-IsRetrieved :
      (user_id : Text) (t : Tables Vector) (h : SearchHit Score)
      → Shows pg (IsCandidate user_id t) settings.rrf_k h
      → IsRetrieved user_id t h
  unfolding row_of
  shown-IsRetrieved user_id t h s = record {
    passage = s.passage;
    candidate = s.has;
    chunk_named = rw s.same refl;
    document_named = rw s.same s.has.joined;
    file_named = rw s.same refl;
    section_named = rw s.same refl;
    page_named = rw s.same refl;
    quoted = rw s.same refl;
    found = rw s.same s.found;
  }

  -- where the rows that the condition leaves are candidates of `t`, so are the hits
  pub search_among-IsRetrieved :
      ScansRows
      → (user_id : Text) (t : Tables Vector) (rows : List (Passage Vector))
        (where_holds : Passage Vector → Bool) (df : List LexemeRow) (query_text : Text)
        (qvec : Vector) (k : ℕ)
      → Every (IsCandidate user_id t) (select where_holds rows)
      → Every
          (IsRetrieved user_id t)
          (search_among pg settings rows where_holds df query_text qvec k)
  unfolding search_among
  search_among-IsRetrieved scans user_id t rows where_holds df query_text qvec k mine =
      let near : Every (IsCandidate user_id t)
          (pg.nearest qvec settings.candidates where_holds rows) =
        Every-weaken _ _ (λ p i. Every-IsIn _ p (select where_holds rows) mine i) _
          (scans qvec settings.candidates where_holds rows) in
      Every-take _ k _ (
        Every-diversified _ settings.per_document_cap [] _ (
          Every-sort_by _ _ _ (
            Every-weaken _ _ (shown-IsRetrieved user_id t) _ (
              fused-Shows pg (IsCandidate user_id t) settings.rrf_k _ _
                (number_from-Every pg _ 1 _ near)
                (number_from-Every pg _ 1 _
                  (fts-Every pg _ _ settings.candidates (select where_holds rows) mine))))))

  -- Let the vector index return rows for which the condition of the query holds. Whatever the
  -- question, its vector, the settings and the tables, every hit of a search is a stored chunk of
  -- a stored document that is ready and that the user owns or has been granted, by name or by the
  -- wildcard; the hit shows that chunk's and that document's own data, and at least one leg has
  -- ranked it.
  pub search_rows-IsRetrieved :
      ScansRows
      → (t : Tables Vector) (query_text : Text) (qvec : Vector) (user_id : Text) (k : ℕ)
      → Every (IsRetrieved user_id t) (search_rows pg settings t query_text qvec user_id k)
  unfolding search_rows candidates
  search_rows-IsRetrieved scans t query_text qvec user_id k =
      search_among-IsRetrieved scans user_id t (passages t.documents t.chunks)
        (retrievable user_id t.permissions) t.lexeme_df query_text qvec k
        (candidates-IsCandidate user_id t)
