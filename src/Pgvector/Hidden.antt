-- ===== src/Pgvector/Hidden.antt =====
-- What `add_chunks` writes, and who sees it (backend/src/sovereign_rag/store/pgvector.py).
use sovereign_rag.Base.{
  Every, subst, sym, ℕ, suc, ◌≡◌, refl, ◌∙◌, ap, Option, none, some, List, [], ◌∷◌, ◌++◌,
  append-nil, append_assoc, Bool, false, arith, select,
}
use sovereign_rag.Text.{Text}
use sovereign_rag.Effects.{Outcome, ok, raised}
use sovereign_rag.Faults.{◌>>=◌}
use sovereign_rag.Store.{Uuid, ChunkIn}
use sovereign_rag.Tables.{Document, Chunk, Tables, document_of}
use sovereign_rag.Tables.Session.{begin, commit, Site, Server, transaction}
use sovereign_rag.Pgvector.{Passage, Postgres}
use sovereign_rag.Pgvector.Legs.{fts, with_document, passages, retrievable, candidates}
use sovereign_rag.Pgvector.Terms.{terms, tsq}
use sovereign_rag.Pgvector.Fusion.{SearchSettings, search_rows}
use sovereign_rag.Pgvector.Retrieved.{
  IsCandidate, IsRetrieved, ScansRows, candidates-IsCandidate, search_among-IsRetrieved,
  search_rows-IsRetrieved,
}
use sovereign_rag.Pgvector.Operations.{insert_chunk, insert_chunks, add_chunks}

module _ {A : Type 0} (p : A → Bool) where
  select-append : (xs ys : List A) → select p (xs ++ ys) ≡ select p xs ++ select p ys
  select-append [] ys = refl
  select-append (x ∷ xs) ys = ground (arith, select-append xs ys)

module _ {Vector : Type 0} (ids : ℕ → Uuid) (document_id : Uuid) where
  -- the rows of a batch, from the n-th identifier on
  abbrev pub rows_of : ℕ → List (ChunkIn Vector) → List (Chunk Vector)
  rows_of n [] = []
  rows_of n (c ∷ chunks) =
      record {
        id = ids n;
        document_id = document_id;
        chunk_index = c.chunk_index;
        content = c.content;
        section = c.section;
        page = c.page;
        embedding = c.embedding;
      }
      ∷ rows_of (suc n) chunks

  -- the tables behind an insert of the whole batch
  abbrev pub with_rows : ℕ → List (ChunkIn Vector) → Tables Vector → Tables Vector
  with_rows n chunks t = record t { chunks = t.chunks ++ rows_of n chunks }

  module _ (fits : Vector → Bool) where
    abbrev Inserted : ℕ → List (ChunkIn Vector) → Tables Vector → Outcome (Tables Vector) → Type 0
    Inserted n chunks t (ok t') = t' ≡ with_rows n chunks t
    Inserted n chunks t (raised e) = Unit

    insert_chunk-Inserted :
        (n : ℕ) (c : ChunkIn Vector) (t : Tables Vector)
        → Inserted n (c ∷ []) t (insert_chunk fits (ids n) document_id c t)
    unfolding insert_chunk
    insert_chunk-Inserted n c t = ground arith

    Inserted-more :
        (n : ℕ) (c : ChunkIn Vector) (chunks : List (ChunkIn Vector)) (t : Tables Vector)
        (first : Outcome (Tables Vector))
        → Inserted n (c ∷ []) t first
        → ((t' : Tables Vector)
            → Inserted (suc n) chunks t' (insert_chunks fits ids document_id (suc n) chunks t'))
        → Inserted n
            (c ∷ chunks)
            t
            (first >>= λ t'. insert_chunks fits ids document_id (suc n) chunks t')
    Inserted-more n c chunks t (raised e) h rest = tt
    Inserted-more n c chunks t (ok t') h rest =
        weaken (insert_chunks fits ids document_id (suc n) chunks t') (rest t')
      where
        weaken :
            (r : Outcome (Tables Vector))
            → Inserted (suc n) chunks t' r
            → Inserted n (c ∷ chunks) t r
        weaken (raised e) k = tt
        weaken (ok t'') k =
            k
            ∙ ground (arith, h, append_assoc t.chunks (rows_of n (c ∷ [])) (rows_of (suc n) chunks))

    pub insert_chunks-Inserted :
        (n : ℕ) (chunks : List (ChunkIn Vector)) (t : Tables Vector)
        → Inserted n chunks t (insert_chunks fits ids document_id n chunks t)
    unfolding insert_chunks
    insert_chunks-Inserted n [] t = ground (arith, append-nil t.chunks)
    insert_chunks-Inserted n (c ∷ chunks) t =
        Inserted-more n c chunks t _ (insert_chunk-Inserted n c t)
          (λ t'. insert_chunks-Inserted (suc n) chunks t')

-- no retrieval for this user returns chunks of the document, if it is there at all
abbrev pub IsHidden : {Vector : Type 0} → Text → Uuid → Tables Vector → Type 0
IsHidden {Vector} user_id document_id t =
    (c : Chunk Vector) (d : Document)
    → document_of document_id t.documents ≡ some d
    → retrievable user_id t.permissions (record { chunk = c; document = d }) ≡ false

module _ {Vector : Type 0} (user_id : Text) (ids : ℕ → Uuid) (document_id : Uuid)
    (t : Tables Vector) (hidden : IsHidden user_id document_id t) where
  hidden_rows :
      (n : ℕ) (chunks : List (ChunkIn Vector))
      → select
          (retrievable user_id t.permissions)
          (passages t.documents (rows_of ids document_id n chunks))
        ≡ []
  unfolding passages
  hidden_rows n [] = refl
  hidden_rows n (c ∷ chunks) =
      skipped (document_of document_id t.documents) refl (hidden_rows (suc n) chunks)
    where
      skipped :
          (found : Option Document)
          → document_of document_id t.documents ≡ found
          → select
              (retrievable user_id t.permissions)
              (passages t.documents (rows_of ids document_id (suc n) chunks))
            ≡ []
          → select (retrievable user_id t.permissions) (
              with_document found
                (record {
                  id = ids n;
                  document_id = document_id;
                  chunk_index = c.chunk_index;
                  content = c.content;
                  section = c.section;
                  page = c.page;
                  embedding = c.embedding;
                })
                (passages t.documents (rows_of ids document_id (suc n) chunks)))
            ≡ []
      skipped none e rest = rest
      skipped (some d) e rest = rw (hidden _ d e) rest

  passages-append :
      (xs ys : List (Chunk Vector))
      → passages t.documents (xs ++ ys) ≡ passages t.documents xs ++ passages t.documents ys
  unfolding passages
  passages-append [] ys = refl
  passages-append (x ∷ xs) ys =
      joined (document_of x.document_id t.documents) (passages-append xs ys)
    where
      joined :
          (found : Option Document)
          → passages t.documents (xs ++ ys) ≡ passages t.documents xs ++ passages t.documents ys
          → with_document found x (passages t.documents (xs ++ ys))
            ≡ with_document found x (passages t.documents xs) ++ passages t.documents ys
      joined none e = e
      joined (some d) e = rw e

  pub candidates-with_rows :
      (n : ℕ) (chunks : List (ChunkIn Vector))
      → candidates user_id (with_rows ids document_id n chunks t) ≡ candidates user_id t
  unfolding candidates
  candidates-with_rows n chunks =
      ap (select (retrievable user_id t.permissions)) (passages-append t.chunks _)
      ∙ select-append (retrievable user_id t.permissions) (passages t.documents t.chunks)
          (passages t.documents (rows_of ids document_id n chunks))
      ∙ ap (λ rows. candidates user_id t ++ rows) (hidden_rows n chunks)
      ∙ append-nil _

module _ {W Vector : Type 0} (server : Server W) (fits : Vector → Bool) (ids : ℕ → Uuid) where
  -- a call that returns has written the whole batch, and one that raises nothing
  abbrev pub AllOrNothing :
      Uuid → List (ChunkIn Vector) → Site W Vector → Outcome (Unit {0}) × Site W Vector → Type 0
  AllOrNothing document_id chunks s (ok _, s') =
      s'.tables ≡ with_rows ids document_id 0 chunks s.tables
  AllOrNothing document_id chunks s (raised e, s') = s'.tables ≡ s.tables

  pub add_chunks-AllOrNothing :
      (document_id : Uuid) (chunks : List (ChunkIn Vector)) (s : Site W Vector)
      → AllOrNothing document_id chunks s (add_chunks server fits ids document_id chunks s)
  unfolding add_chunks transaction
  add_chunks-AllOrNothing document_id chunks s = connected (server.statement s.world).0
    where
      committed :
          (w : W) (r : Outcome (Tables Vector))
          → Inserted ids document_id fits 0 chunks s.tables r
          → AllOrNothing document_id chunks s
              (commit (r >>= λ t'. ok (tt, t')) (record s { world = w }))
      committed w (ok t') h = h
      committed w (raised e) h = refl

      connected :
          (r : Outcome (Unit {0}))
          → AllOrNothing document_id chunks s (
              begin r
                (λ t. insert_chunks fits ids document_id 0 chunks t >>= λ t'. ok (tt, t'))
                (record s { world = (server.statement s.world).1 }))
      connected (ok _) =
          committed _ _ (insert_chunks-Inserted ids document_id fits 0 chunks s.tables)
      connected (raised e) = refl

  module _ {Query Rank Score : Type 0} (pg : Postgres Vector Query Rank Score)
      (settings : SearchSettings) where
    -- the text leg of a search over the tables `t`
    abbrev pub text_leg : Text → Text → ℕ → Tables Vector → List (Passage Vector)
    text_leg user_id query_text n t =
        fts pg (tsq pg (terms pg t.lexeme_df query_text)) n (candidates user_id t)

    -- a search over `t'` shows only what is retrievable from `t`, and its text leg is that over `t`
    abbrev pub FindsAsBefore : Text → Tables Vector → Tables Vector → Type 0
    FindsAsBefore user_id t t' =
        (query_text : Text) (qvec : Vector) (k : ℕ)
        → (text_leg user_id query_text k t' ≡ text_leg user_id query_text k t)
          × Every (IsRetrieved user_id t) (search_rows pg settings t' query_text qvec user_id k)

    after :
        ScansRows pg settings
        → (user_id : Text) (document_id : Uuid) (chunks : List (ChunkIn Vector)) (t : Tables Vector)
        → IsHidden user_id document_id t
        → FindsAsBefore user_id t (with_rows ids document_id 0 chunks t)
    unfolding search_rows candidates
    after scans user_id document_id chunks t hidden query_text qvec k =
        let same = candidates-with_rows user_id ids document_id t hidden 0 chunks in
        (
          ap (fts pg (tsq pg (terms pg t.lexeme_df query_text)) k) same,
          search_among-IsRetrieved pg settings scans user_id t _ _ t.lexeme_df query_text qvec k
              (subst (Every (IsCandidate user_id t)) (sym same) (candidates-IsCandidate user_id t)),
        )

    unseen :
        ScansRows pg settings
        → (user_id : Text) (document_id : Uuid) (chunks : List (ChunkIn Vector)) (s : Site W Vector)
          (r : Outcome (Unit {0}) × Site W Vector)
        → IsHidden user_id document_id s.tables
        → AllOrNothing document_id chunks s r
        → FindsAsBefore user_id s.tables r.1.tables
    unseen scans user_id document_id chunks s (raised e, s') hidden h =
        subst (FindsAsBefore user_id s.tables) (sym h) (λ query_text qvec k.
          (refl, search_rows-IsRetrieved pg settings scans s.tables query_text qvec user_id k))
    unseen scans user_id document_id chunks s (ok _, s') hidden h =
        subst (FindsAsBefore user_id s.tables) (sym h)
          (after scans user_id document_id chunks s.tables hidden)

    -- Let the vector index return rows for which the condition of the query holds. Adding chunks
    -- writes the whole batch if it returns, and nothing if it raises. Take a user from whom the
    -- document is hidden, because it is not ready or the user may not see it, or because it is
    -- not there. Then for every search of that user after the call, the text leg ranks exactly
    -- what it would rank before, and every hit is a stored chunk of a ready document that the
    -- user could retrieve before the call: no new chunk is among them.
    pub add_chunks-IsHidden :
        ScansRows pg settings
        → (user_id : Text) (document_id : Uuid) (chunks : List (ChunkIn Vector)) (s : Site W Vector)
        → IsHidden user_id document_id s.tables
        → let (r, s') = add_chunks server fits ids document_id chunks s in
          AllOrNothing document_id chunks s (r, s') × FindsAsBefore user_id s.tables s'.tables
    add_chunks-IsHidden scans user_id document_id chunks s hidden =
        let h = add_chunks-AllOrNothing document_id chunks s in
        (h, unseen scans user_id document_id chunks s _ hidden h)
