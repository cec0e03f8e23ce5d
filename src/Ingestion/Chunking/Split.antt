-- ===== src/Ingestion/Chunking/Split.antt =====
-- The splitters for markdown and for plain text, and their choice by content type
-- (backend/src/sovereign_rag/ingestion/chunking.py).
use mathlib.Core.List.{foldl}
use sovereign_rag.Base.{
  ℕ, Option, none, some, List, [], ◌∷◌, ◌++◌, map, Bool, true, false, if◌then◌else◌, is_empty,
  length,
}
use sovereign_rag.Text.{Text, codes, newline, same_text}
use sovereign_rag.Effects.{Outcome, ok}
use sovereign_rag.Faults.{◌>>=◌, concat_each}
use sovereign_rag.Ingestion.Extract.{Fragment, ExtractedDoc}
use sovereign_rag.Ingestion.Chunking.Units.{atomic_units}
use sovereign_rag.Ingestion.Chunking.Pack.{go_on, close, pack_step, pack}

pub record ChunkDraft : Type 0 where
  pub chunk_index : ℕ
  pub content : Text
  pub section : Option Text
  pub page : Option ℕ

-- `drafts.append(ChunkDraft(chunk_index=len(drafts), …))`
unfoldable pub append_draft : Text → Option Text → Option ℕ → List ChunkDraft → List ChunkDraft
append_draft content section page drafts =
    drafts
    ++ record { chunk_index = length drafts; content = content; section = section; page = page }
      ∷ []

-- equality of two keys of `groups`
abbrev pub same_key : Option Text → Option Text → Bool
same_key none none = true
same_key (some s) (some t) = same_text s t
same_key _ _ = false

-- `groups.setdefault(fragment.section, []).append(fragment.text)`
unfoldable pub add_text : List (Option Text × List Text) → Fragment → List (Option Text × List Text)
add_text [] f = (f.section, f.text ∷ []) ∷ []
add_text ((key, texts) ∷ groups) f =
    if same_key key f.section
    then (key, texts ++ f.text ∷ []) ∷ groups
    else (key, texts) ∷ add_text groups f

-- `f"{section}\n{piece}" if section is not None else piece`
abbrev pub under_section : Option Text → Text → Text
under_section none piece = piece
under_section (some s) piece = s ++ newline ∷ piece

unfoldable pub append_pieces : Option Text → List Text → List ChunkDraft → List ChunkDraft
unfolding append_draft
append_pieces section pieces drafts =
    foldl (λ ds piece. append_draft (under_section section piece) section none ds) drafts pieces

unfoldable pub markdown_groups :
    ℕ → ℕ → List (Option Text × List Text) → List ChunkDraft → Outcome (List ChunkDraft)
markdown_groups size overlap [] drafts = ok drafts
markdown_groups size overlap ((section, texts) ∷ groups) drafts =
    concat_each (atomic_units size) texts >>= λ units.
    markdown_groups size overlap groups (append_pieces section (pack size overlap units) drafts)

unfoldable pub split_markdown : ExtractedDoc → ℕ → ℕ → Outcome (List ChunkDraft)
unfolding add_text markdown_groups
split_markdown doc size overlap = markdown_groups size overlap (foldl add_text [] doc.fragments) []

pub record PlacedUnit : Type 0 where
  pub text : Text
  pub section : Option Text
  pub page : Option ℕ

-- `units`, with the section and the page of their fragment
unfoldable pub placed_units : ℕ → Fragment → Outcome (List PlacedUnit)
placed_units size f = atomic_units size f.text >>= λ units.
    ok (map (λ u. record { text = u; section = f.section; page = f.page }) units)

-- `a or b` of two optional texts, where an empty text counts as none
abbrev pub truthy_or : Option Text → Option Text → Option Text
truthy_or none b = b
truthy_or (some []) b = b
truthy_or (some (c ∷ s)) b = some (c ∷ s)

-- `f"{header}\n{current}" if header else current`
abbrev pub under_header : Option Text → Text → Text
under_header none current = current
under_header (some []) current = current
under_header (some (c ∷ s)) current = (c ∷ s) ++ newline ∷ current

-- `flush`
unfoldable pub flush :
    Option Text → Text → Option Text → Option ℕ → List ChunkDraft → List ChunkDraft
unfolding append_draft
flush title current section page drafts =
    append_draft (under_header (truthy_or section title) current) section page drafts

-- where the section and the page of the chunk come from: the unit that opens it
abbrev pub place : {A : Type 0} → Text → A → A → A
place [] old new = new
place (c ∷ current) old new = old

unfoldable pub plain_from :
    ℕ
    → ℕ
    → Option Text
    → Text
    → Option Text
    → Option ℕ
    → List ChunkDraft
    → List PlacedUnit
    → List ChunkDraft
unfolding flush
plain_from size overlap title current section page drafts [] =
    if is_empty current then drafts else flush title current section page drafts
plain_from size overlap title current section page drafts (u ∷ units) =
    elim (pack_step size overlap current u.text) [
      | go_on text ↦
          plain_from size overlap title text (place current section u.section)
            (place current page u.page) drafts units
      | close text ↦
          plain_from size overlap title text u.section u.page
            (flush title current section page drafts) units
    ]

-- `doc.meta.get(key)`
unfoldable pub meta_get : Text → List (Text × Text) → Option Text
meta_get key [] = none
meta_get key ((k, v) ∷ meta) = if same_text k key then some v else meta_get key meta

unfoldable pub split_plain : ExtractedDoc → ℕ → ℕ → Outcome (List ChunkDraft)
unfolding placed_units plain_from meta_get
split_plain doc size overlap = concat_each (placed_units size) doc.fragments >>= λ units.
    ok (plain_from size overlap (meta_get (codes "title") doc.meta) [] none none [] units)

-- `SPLITTERS.get(content_type, _split_plain)`: only `md` has another splitter than the default
unfoldable pub chunk_fragments : ExtractedDoc → Text → ℕ → ℕ → Outcome (List ChunkDraft)
unfolding split_markdown split_plain
chunk_fragments doc content_type size overlap =
    if same_text content_type (codes "md")
    then split_markdown doc size overlap
    else split_plain doc size overlap
