-- ===== src/Ingestion/Service/Batches.antt =====
-- The chunks that a background task computes are the drafts of its file
-- (`_process` of backend/src/sovereign_rag/ingestion/service.py).
use sovereign_rag.Base.{
  ℕ, zero, suc, ◌≤◌, ◌≡◌, refl, sym, ◌∙◌, ap, List, [], ◌∷◌, ◌++◌, map, not, Bool-cases, inl, inr,
  arith, length, take, drop, take-append-drop, length-drop,
}
use sovereign_rag.Text.{Text, same_text}
use sovereign_rag.Effects.{
  Outcome, ok, raised, Ends, Ends-pure, Ends-lift, Ends-bind, Ends-Anything, Anything, Allowed,
  raise,
}
use sovereign_rag.Faults.{Allowed-bind}
use sovereign_rag.Store.{ChunkIn}
use sovereign_rag.Ingestion.Extract.{ExtractedDoc}
use sovereign_rag.Ingestion.Extract.Formats.{Bytes, extract}
use sovereign_rag.Ingestion.Chunking.Split.{ChunkDraft, chunk_fragments}
use sovereign_rag.Ingestion.Service.Prepare.{
  IngestDeps, embed_batch_size, zip_strict, embed_from, prepare,
}

-- the draft that a chunk was made of
abbrev pub draft_of : {Vector : Type 0} → ChunkIn Vector → ChunkDraft
draft_of c = record {
  chunk_index = c.chunk_index;
  content = c.content;
  section = c.section;
  page = c.page;
}

map-append_lem :
    {A B : Type 0} (f : A → B) (xs ys : List A) → map f (xs ++ ys) ≡ map f xs ++ map f ys
map-append_lem f [] ys = refl
map-append_lem f (x ∷ xs) ys = ap (λ zs. f x ∷ zs) (map-append_lem f xs ys)

-- an outcome is what it is
itself : {A : Type 0} (r : Outcome A) → Allowed (λ a. r ≡ ok a) Anything r
itself (ok a) = refl
itself (raised e) = tt

module _ {Vector : Type 0} where
  abbrev Zips : List ChunkDraft → List (ChunkIn Vector) → Type 0
  Zips drafts chunks = map draft_of chunks ≡ drafts

  zip_strict-Zips :
      (drafts : List ChunkDraft) (vectors : List Vector)
      → Allowed (Zips drafts) Anything (zip_strict drafts vectors)
  unfolding zip_strict
  zip_strict-Zips [] [] = refl
  zip_strict-Zips [] (v ∷ vectors) = tt
  zip_strict-Zips (d ∷ drafts) [] = tt
  zip_strict-Zips (d ∷ drafts) (v ∷ vectors) =
      Allowed-bind (Zips drafts) (Zips (d ∷ drafts)) Anything (zip_strict drafts vectors) _
        (zip_strict-Zips drafts vectors) λ chunks e. ap (λ ds. d ∷ ds) e

module _ {W Vector : Type 0} (deps : IngestDeps W Vector) where
  embed_from-Zips :
      (rounds : ℕ) (drafts : List ChunkDraft)
      → length drafts ≤ rounds
      → Ends (Zips drafts) Anything (embed_from deps rounds drafts)
  unfolding embed_from
  embed_from-Zips zero [] l = Ends-pure [] refl
  embed_from-Zips zero (d ∷ drafts) l = absurd (omega arith)
  embed_from-Zips (suc rounds) [] l = Ends-pure [] refl
  embed_from-Zips (suc rounds) (d ∷ drafts) l =
      let batch = take embed_batch_size (d ∷ drafts) in
      let others = drop embed_batch_size (d ∷ drafts) in
      Ends-bind _ _ (Ends-Anything _) λ vectors _.
        Ends-bind _ _ (Ends-lift _ (zip_strict-Zips batch vectors)) λ here h.
          Ends-bind _ _
            (embed_from-Zips rounds others
              (omega (arith, length-drop embed_batch_size (d ∷ drafts))))
            λ more m. Ends-pure _ (
              map-append_lem draft_of here more
              ∙ (rw (h, m) (take-append-drop embed_batch_size (d ∷ drafts))))

  -- `chunks` are the drafts of the file, in their order, each with a vector
  pub record IsPrepared (data_bytes : Bytes) (content_type : Text) (chunks : List ChunkDraft)
      (meta : List (Text × Text)) : Type 0 where
    pub extracted : ExtractedDoc
    pub extracts : extract deps.readers data_bytes content_type ≡ ok extracted
    pub chunked :
        chunk_fragments extracted content_type deps.chunk_size deps.chunk_overlap ≡ ok chunks
    pub described : meta ≡ extracted.meta

  abbrev pub Prepared : Bytes → Text → List (ChunkIn Vector) × List (Text × Text) → Type 0
  Prepared data_bytes content_type (chunks, meta) =
      IsPrepared data_bytes content_type (map draft_of chunks) meta

  pub prepare-IsPrepared :
      (data_bytes : Bytes) (content_type : Text)
      → Ends (Prepared data_bytes content_type) Anything (prepare deps data_bytes content_type)
  unfolding prepare raise
  prepare-IsPrepared data_bytes content_type =
      elim (Bool-cases (not (same_text deps.embedder_model deps.embedding_model))) [
        | inl bad ↦ rw bad (record { at = λ w. tt })
        | inr good ↦ rw good (
            Ends-bind _ _ (Ends-lift _ (itself (extract deps.readers data_bytes content_type)))
              λ extracted e.
                Ends-bind _ _
                  (Ends-lift _ (
                    itself
                      (chunk_fragments extracted content_type deps.chunk_size deps.chunk_overlap)))
                  λ drafts d.
                    Ends-bind _ _ (embed_from-Zips (length drafts) drafts (omega arith)) λ chunks z.
                      Ends-pure _ (record {
                        extracted = extracted;
                        extracts = e;
                        chunked = d ∙ ap ok (sym z);
                        described = refl;
                      }))
      ]
