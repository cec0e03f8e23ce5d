-- ===== src/Ingestion/Extract/Markdown.antt =====
-- What a markdown document becomes (`_extract_md` of
-- backend/src/sovereign_rag/ingestion/extract.py): nothing but headings and white space is lost,
-- and every fragment stands under headings of the document.
use sovereign_rag.Base.{
  ℕ, zero, suc, ◌≤◌, ◌≡◌, refl, subst, inl, inr, none, some, Option-cases, List, [], ◌∷◌, ◌++◌,
  arith, if◌then◌else◌, is_empty, length, length-take, length-append, take, Every, Every-append,
  Every-take, Every-weaken, IsIn,
}
use sovereign_rag.Text.{Text, newline, join, strip}
use sovereign_rag.Ingestion.Chunking.Ink.{ink, flat}
use sovereign_rag.Ingestion.Extract.Headings.{splitlines, md_heading, push_heading, section_of}
use sovereign_rag.Ingestion.Extract.Formats.{
  Bytes, Readers, decode, flush_block, md_from, extract_md,
}
use sovereign_rag.Ingestion.Extract.Ink.{
  body_of, titles_of, texts_of, IsUnder, splitlines-lossless, md_from-lossless,
}

module _ (P : Text → Type 0) where
  -- a stack of headings
  abbrev IsPath : List Text → Type 0
  IsPath stack = (length stack ≤ 6) × Every P stack

  filled_lem :
      (stack : List Text) (content : Text)
      → IsPath stack
      → Every (IsUnder P) (
          if is_empty content
          then []
          else record { text = content; section = section_of stack; page = none } ∷ [])
  filled_lem stack [] h = tt
  filled_lem stack (c ∷ s) h = (record { filled = omega arith; path = (stack, refl, h.0, h.1) }, tt)

  flush_block-IsUnder :
      (stack block : List Text) → IsPath stack → Every (IsUnder P) (flush_block stack block)
  unfolding flush_block
  flush_block-IsUnder stack block h = filled_lem stack (strip (join (newline ∷ []) block)) h

  push_heading-IsPath :
      (level : ℕ) (title : Text) (stack : List Text)
      → (1 ≤ level) × (level ≤ 6)
      → P title
      → IsPath stack
      → IsPath (push_heading level title stack)
  unfolding push_heading
  push_heading-IsPath zero title stack b p h = absurd (omega arith)
  push_heading-IsPath (suc l) title stack b p h = (
    omega (arith, length-append (take l stack) (title ∷ []), length-take l stack),
    Every-append P (take l stack) (title ∷ []) (Every-take P l stack h.1) (p, tt),
  )

  md_heading_level :
      (line : Text) (level : ℕ) (title : Text)
      → md_heading line ≡ some (level, title)
      → (1 ≤ level) × (level ≤ 6)
  unfolding md_heading
  md_heading_level line level title e = ground arith

  md_from-IsUnder :
      (stack block lines : List Text)
      → IsPath stack
      → Every P (titles_of lines)
      → Every (IsUnder P) (md_from stack block lines)
  unfolding md_from
  md_from-IsUnder stack block [] h k = flush_block-IsUnder stack block h
  md_from-IsUnder stack block (line ∷ lines) h k = elim (Option-cases (md_heading line)) [
    | inl e ↦
        rw (e, md_from)
          (md_from-IsUnder stack (block ++ line ∷ []) lines h
            (subst (Every P) (titles_none line lines e) k))
    | inr (g, e) ↦
        let titles = subst (Every P) (titles_some line lines g e) k in
        rw (e, md_from)
          (Every-append (IsUnder P) (flush_block stack block) _ (flush_block-IsUnder stack block h)
            (md_from-IsUnder (push_heading g.0 g.1 stack) [] lines
              (push_heading-IsPath g.0 g.1 stack (md_heading_level line g.0 g.1 e) titles.0 h)
              titles.1))
  ]
    where
      titles_none :
          (line : Text) (lines : List Text)
          → md_heading line ≡ none
          → titles_of (line ∷ lines) ≡ titles_of lines
      titles_none line lines e = rw (e, titles_of) refl

      titles_some :
          (line : Text) (lines : List Text) (g : ℕ × Text)
          → md_heading line ≡ some g
          → titles_of (line ∷ lines) ≡ g.1 ∷ titles_of lines
      titles_some line lines g e = rw (e, titles_of) refl

Every-IsIn : (ts : List Text) → Every (λ t. IsIn t ts) ts
Every-IsIn [] = tt
Every-IsIn (t ∷ ts) = (inl refl, Every-weaken (λ u. IsIn u ts) _ (λ u k. inr k) ts (Every-IsIn ts))

-- The lines of a markdown file hold all its characters that are not white space, in their order;
-- the texts of the fragments hold all those of the lines that are no headings, in their order;
-- and every fragment has a text that is not empty, under a path of at most six headings of the
-- file.
pub extract_md-lossless :
    (readers : Readers) (data_bytes : Bytes)
    → (let lines = splitlines (decode readers data_bytes) in
        let fragments = (extract_md readers data_bytes).fragments in
        (ink (flat lines) ≡ ink (decode readers data_bytes))
        × (ink (flat (texts_of fragments)) ≡ ink (flat (body_of lines)))
        × Every (IsUnder (λ t. IsIn t (titles_of lines))) fragments)
unfolding extract_md ink
extract_md-lossless readers data_bytes =
    let lines = splitlines (decode readers data_bytes) in
    (
      splitlines-lossless (decode readers data_bytes),
      md_from-lossless [] [] lines,
      md_from-IsUnder (λ t. IsIn t (titles_of lines)) [] [] lines (omega arith, tt)
          (Every-IsIn (titles_of lines)),
    )
