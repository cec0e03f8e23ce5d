-- ===== src/Ingestion/Chunking/Drafts.antt =====
-- The drafts that the two splitters return: numbered, headed and within the limit
-- (backend/src/sovereign_rag/ingestion/chunking.py).
use mathlib.Core.List.{foldl}
use sovereign_rag.Base.{
  true, false, refl, ℕ, ◌≤◌, ◌<◌, Option, none, List, [], ◌∷◌, arith, Bool, if◌then◌else◌, length,
  map, Every, Every-append,
}
use sovereign_rag.Text.{same_text, Text, codes}
use sovereign_rag.Effects.{Never, Allowed, Outcome}
use sovereign_rag.Faults.{Allowed-bind, concat_each, concat_each-Allowed}
use sovereign_rag.Ingestion.Extract.{Fragment, ExtractedDoc}
use sovereign_rag.Ingestion.Chunking.Units.{atomic_units}
use sovereign_rag.Ingestion.Chunking.Pack.{PackStep, go_on, close, pack_step}
use sovereign_rag.Ingestion.Chunking.Split.{
  meta_get, add_text, ChunkDraft, under_section, under_header, truthy_or, append_pieces,
  markdown_groups, PlacedUnit, placed_units, place, flush, plain_from, chunk_fragments,
}
use sovereign_rag.Ingestion.Chunking.Bounds.{
  FitsIn, atomic_units-FitsIn, chunk_limit, StepFits, pack_step-StepFits, IsChunk,
}
use sovereign_rag.Ingestion.Chunking.Limits.{pack-IsChunk, AreDrafts, append_draft-AreDrafts}

module _ (size overlap : ℕ) where
  append_pieces-AreDrafts :
      (section : Option Text) (pieces : List Text) (ds : List ChunkDraft)
      → Every (IsChunk (chunk_limit size overlap)) pieces
      → AreDrafts size overlap under_section ds
      → AreDrafts size overlap under_section (append_pieces section pieces ds)
  unfolding append_pieces
  append_pieces-AreDrafts section [] ds k h = h
  append_pieces-AreDrafts section (piece ∷ pieces) ds k h =
      append_pieces-AreDrafts section pieces _ k.1
        (append_draft-AreDrafts size overlap under_section piece _ section none ds refl k.0 h)

  text_units :
      (texts : List Text)
      → 0 < size
      → Allowed (Every (FitsIn size)) Never (concat_each (atomic_units size) texts)
  text_units texts pos =
      concat_each-Allowed (λ xs units. Every (FitsIn size) units) Never _ tt
        (λ x xs bs cs h k. Every-append (FitsIn size) bs cs h k)
        (λ text. atomic_units-FitsIn size text pos) texts

  markdown_groups-AreDrafts :
      (groups : List (Option Text × List Text)) (ds : List ChunkDraft)
      → 0 < size
      → AreDrafts size overlap under_section ds
      → Allowed
          (AreDrafts size overlap under_section)
          Never
          (markdown_groups size overlap groups ds)
  unfolding markdown_groups
  markdown_groups-AreDrafts [] ds pos h = h
  markdown_groups-AreDrafts ((section, texts) ∷ groups) ds pos h =
      Allowed-bind (Every (FitsIn size)) (AreDrafts size overlap under_section) Never
        (concat_each (atomic_units size) texts) _ (text_units texts pos)
        λ units k.
          markdown_groups-AreDrafts groups _ pos
            (append_pieces-AreDrafts section _ ds (pack-IsChunk size overlap units k) h)

  abbrev PlacedFits : PlacedUnit → Type 0
  PlacedFits u = FitsIn size u.text

  placed_fits :
      (section : Option Text) (page : Option ℕ) (units : List Text)
      → Every (FitsIn size) units
      → Every PlacedFits (map (λ u. record { text = u; section = section; page = page }) units)
  placed_fits section page [] h = tt
  placed_fits section page (u ∷ units) h = (h.0, placed_fits section page units h.1)

  placed_units-fit :
      (f : Fragment) → 0 < size → Allowed (Every PlacedFits) Never (placed_units size f)
  unfolding placed_units
  placed_units-fit f pos =
      Allowed-bind (Every (FitsIn size)) (Every PlacedFits) Never (atomic_units size f.text) _
        (atomic_units-FitsIn size f.text pos) λ units h. placed_fits f.section f.page units h

  -- the header of a plain chunk: the section, else the title of the document
  abbrev pub under_title : Option Text → Option Text → Text → Text
  under_title title section chunk = under_header (truthy_or section title) chunk

  flush-AreDrafts :
      (title : Option Text) (current : Text) (section : Option Text) (page : Option ℕ)
      (ds : List ChunkDraft)
      → IsChunk (chunk_limit size overlap) current
      → AreDrafts size overlap (under_title title) ds
      → AreDrafts size overlap (under_title title) (flush title current section page ds)
  unfolding flush
  flush-AreDrafts title current section page ds c h =
      append_draft-AreDrafts size overlap (under_title title) current _ section page ds refl c h

  plain_step :
      (title : Option Text) (current : Text) (section : Option Text) (page : Option ℕ)
      (ds : List ChunkDraft) (u : PlacedUnit) (units : List PlacedUnit) (step : PackStep)
      → ((text : Text) (s : Option Text) (p : Option ℕ) (ds' : List ChunkDraft)
          → length text ≤ chunk_limit size overlap
          → AreDrafts size overlap (under_title title) ds'
          → AreDrafts size overlap
              (under_title title)
              (plain_from size overlap title text s p ds' units))
      → IsChunk (chunk_limit size overlap) current
      → StepFits (chunk_limit size overlap) step
      → AreDrafts size overlap (under_title title) ds
      → AreDrafts size overlap (under_title title) (elim step [
        | go_on text ↦
            plain_from size overlap title text
              (place current section u.section)
              (place current page u.page)
              ds
              units
        | close text ↦
            plain_from size overlap title text u.section u.page
              (flush title current section page ds)
              units
      ])
  plain_step title current section page ds u units (go_on text) go c s h = go text _ _ ds s.1 h
  plain_step title current section page ds u units (close text) go c s h =
      go text u.section u.page _ s.1 (flush-AreDrafts title current section page ds c h)

  plain_from-AreDrafts :
      (title : Option Text) (units : List PlacedUnit) (current : Text) (section : Option Text)
      (page : Option ℕ) (ds : List ChunkDraft)
      → length current ≤ chunk_limit size overlap
      → Every PlacedFits units
      → AreDrafts size overlap (under_title title) ds
      → AreDrafts size overlap
          (under_title title)
          (plain_from size overlap title current section page ds units)
  unfolding plain_from pack_step
  plain_from-AreDrafts title [] [] section page ds l k h = h
  plain_from-AreDrafts title [] (c ∷ current) section page ds l k h =
      flush-AreDrafts title (c ∷ current) section page ds (omega arith, l) h
  plain_from-AreDrafts title (u ∷ units) [] section page ds l k h =
      plain_from-AreDrafts title units u.text u.section u.page ds (omega arith) k.1 h
  plain_from-AreDrafts title (u ∷ units) (c ∷ current) section page ds l k h =
      plain_step title (c ∷ current) section page ds u units
        (pack_step size overlap (c ∷ current) u.text)
        (λ text s p ds' t d. plain_from-AreDrafts title units text s p ds' t k.1 d) (omega arith, l)
        (pack_step-StepFits size overlap (c ∷ current) u.text k.0) h

-- what the drafts of a document are headed by, for its content type
abbrev pub heading_of : ExtractedDoc → Text → Option Text → Text → Text
heading_of doc content_type =
    if same_text content_type (codes "md") then under_section else λ section chunk.
    under_header (truthy_or section (meta_get (codes "title") doc.meta)) chunk

by_type :
    (size overlap : ℕ) (md : Bool) (h k : Option Text → Text → Text)
    (x y : Outcome (List ChunkDraft))
    → Allowed (AreDrafts size overlap h) Never x
    → Allowed (AreDrafts size overlap k) Never y
    → Allowed (AreDrafts size overlap (if md then h else k)) Never (if md then x else y)
by_type size overlap true h k x y hx hy = hx
by_type size overlap false h k x y hx hy = hy

-- With a size above 0, chunking returns for every document and content type, and never raises.
-- The drafts are numbered 0, 1, 2 and so on, and the content of each is the line of its heading,
-- where it has one, and a non-empty chunk of at most size + overlap + 1 characters.
pub chunk_fragments-AreDrafts :
    (doc : ExtractedDoc) (content_type : Text) (size overlap : ℕ)
    → 0 < size
    → Allowed
        (AreDrafts size overlap (heading_of doc content_type))
        Never
        (chunk_fragments doc content_type size overlap)
unfolding chunk_fragments
chunk_fragments-AreDrafts doc content_type size overlap pos =
    let title = meta_get (codes "title") doc.meta in
    by_type size overlap (same_text content_type (codes "md")) under_section
      (under_title size overlap title) _ _
      (markdown_groups-AreDrafts size overlap (foldl add_text [] doc.fragments) [] pos (tt, tt))
      (Allowed-bind (Every (PlacedFits size overlap))
        (AreDrafts size overlap (under_title size overlap title)) Never
        (concat_each (placed_units size) doc.fragments) _
        (concat_each-Allowed (λ fs units. Every (PlacedFits size overlap) units) Never _ tt
          (λ x xs bs cs h k. Every-append (PlacedFits size overlap) bs cs h k)
          (λ f. placed_units-fit size overlap f pos) doc.fragments)
        λ units k.
          plain_from-AreDrafts size overlap _ units [] none none [] (omega arith) k (tt, tt))
