-- ===== src/Ingestion/Chunking/Limits.antt =====
-- Packed chunks are within the documented limit, and drafts are numbered as they are appended (backend/src/sovereign_rag/ingestion/chunking.py).
use sovereign_rag.Base.{
  ℕ, suc, ◌+◌, ◌≤◌, ◌≡◌, Option, List, [], ◌∷◌, ◌++◌, arith, length, Every, Every-append,
}
use sovereign_rag.Text.{Text}
use sovereign_rag.Ingestion.Chunking.Pack.{PackStep, go_on, close, pack_step, pack_from, pack}
use sovereign_rag.Ingestion.Chunking.Split.{ChunkDraft, append_draft}
use sovereign_rag.Ingestion.Chunking.Bounds.{
  FitsIn, chunk_limit, StepFits, pack_step-StepFits, IsChunk,
}

module _ (size overlap : ℕ) where
  abbrev Chunks : List Text → Type 0
  Chunks chunks = Every (IsChunk (chunk_limit size overlap)) chunks

  packed :
      (current : Text) (step : PackStep) (units : List Text)
      → ((text : Text)
          → length text ≤ chunk_limit size overlap
          → Chunks (pack_from size overlap text units))
      → IsChunk (chunk_limit size overlap) current
      → StepFits (chunk_limit size overlap) step
      → Chunks (elim step [
        | go_on text ↦ pack_from size overlap text units
        | close text ↦ current ∷ pack_from size overlap text units
      ])
  packed current (go_on text) units go c s = go text s.1
  packed current (close text) units go c s = (c, go text s.1)

  pack_from-IsChunk :
      (units : List Text) (current : Text)
      → length current ≤ chunk_limit size overlap
      → Every (FitsIn size) units
      → Chunks (pack_from size overlap current units)
  unfolding pack_from pack_step
  pack_from-IsChunk [] [] h k = tt
  pack_from-IsChunk [] (c ∷ current) h k = ((omega arith, h), tt)
  pack_from-IsChunk (unit ∷ units) [] h k = pack_from-IsChunk units unit (omega arith) k.1
  pack_from-IsChunk (unit ∷ units) (c ∷ current) h k =
      packed (c ∷ current) (pack_step size overlap (c ∷ current) unit) units
        (λ text t. pack_from-IsChunk units text t k.1) (omega arith, h)
        (pack_step-StepFits size overlap (c ∷ current) unit k.0)

  pub pack-IsChunk :
      (units : List Text) → Every (FitsIn size) units → Chunks (pack size overlap units)
  unfolding pack
  pack-IsChunk units k = pack_from-IsChunk units [] (omega arith) k

-- A draft's content is what `heading` makes of its section and of a chunk within the limit.
abbrev pub IsDraft : ℕ → ℕ → (Option Text → Text → Text) → ChunkDraft → Type 0
IsDraft size overlap heading d =
    (chunk : Text) × (d.content ≡ heading d.section chunk)
    × IsChunk (chunk_limit size overlap) chunk

-- the drafts are numbered from `n` on
abbrev pub IsNumbered : ℕ → List ChunkDraft → Type 0
IsNumbered n [] = Unit
IsNumbered n (d ∷ ds) = (d.chunk_index ≡ n) × IsNumbered (suc n) ds

IsNumbered-append :
    (n : ℕ) (ds : List ChunkDraft) (d : ChunkDraft)
    → IsNumbered n ds
    → d.chunk_index ≡ n + length ds
    → IsNumbered n (ds ++ d ∷ [])
IsNumbered-append n [] d h e = (omega arith, tt)
IsNumbered-append n (x ∷ ds) d h e = (h.0, IsNumbered-append (suc n) ds d h.1 (omega arith))

module _ (size overlap : ℕ) (heading : Option Text → Text → Text) where
  abbrev pub AreDrafts : List ChunkDraft → Type 0
  AreDrafts ds = IsNumbered 0 ds × Every (IsDraft size overlap heading) ds

  pub append_draft-AreDrafts :
      (chunk content : Text) (section : Option Text) (page : Option ℕ) (ds : List ChunkDraft)
      → content ≡ heading section chunk
      → IsChunk (chunk_limit size overlap) chunk
      → AreDrafts ds
      → AreDrafts (append_draft content section page ds)
  unfolding append_draft
  append_draft-AreDrafts chunk content section page ds e c h = (
    IsNumbered-append 0 ds _ h.0 (omega arith),
    Every-append (IsDraft size overlap heading) ds _ h.1 ((chunk, e, c), tt),
  )
