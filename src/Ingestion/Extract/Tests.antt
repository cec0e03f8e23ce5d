-- ===== src/Ingestion/Extract/Tests.antt =====
-- Extraction at small documents.
use sovereign_rag.Base.{◌≡◌, refl, none, some, [], ◌∷◌, IsIn, Every}
use sovereign_rag.Text.{Text, codes, is_space, strip, join}
use sovereign_rag.Effects.{ok, raised, extraction_error}
use sovereign_rag.Ingestion.Chunking.Ink.{ink, flat}
use sovereign_rag.Ingestion.Extract.Headings.{
  splitlines, md_heading, section_of, push_heading, heading_level,
}
use sovereign_rag.Ingestion.Extract.Formats.{
  Readers, Properties, paragraph, table, decode, extract_md, extract_docx, extract_pdf, no_text_msg,
}
use sovereign_rag.Ingestion.Extract.Ink.{IsUnder, texts_of, body_of, titles_of}
use sovereign_rag.Ingestion.Extract.Markdown.{extract_md-lossless}

abbrev no_properties : Properties
no_properties = record { title = none; author = none }

-- every byte is a character; a file of Word has a heading 2, a text and a table
abbrev ascii : Readers
ascii = record {
  decode_utf8 = λ bytes. some bytes;
  read_docx = λ bytes. ok (record {
    items =
        paragraph (some (codes "Heading 2")) (codes "Scope")
        ∷ paragraph none (codes " all staff ")
        ∷ table ((codes "a" ∷ codes " b" ∷ []) ∷ (codes " " ∷ [] ∷ []) ∷ [])
        ∷ [];
    core_properties = record { title = some (codes "Act"); author = some [] };
  });
  read_pdf =
      λ bytes. ok (record { pages = ok (some (codes " short ")) ∷ ok none ∷ []; metadata = none });
  str_of_fault = λ e. [];
}

-- the deeper heading comes first
abbrev skipping : Text
skipping = codes "### A\n## B\ntext\r\n\n# C\n"

extract_md-lossless_example :
    (let lines = splitlines (decode ascii skipping) in
      let fragments = (extract_md ascii skipping).fragments in
      (ink (flat lines) ≡ ink (decode ascii skipping))
      × (ink (flat (texts_of fragments)) ≡ ink (flat (body_of lines)))
      × Every (IsUnder (λ t. IsIn t (titles_of lines))) fragments)
extract_md-lossless_example = extract_md-lossless ascii skipping

-- A level that was skipped leaves the deeper heading above the shallower one.
extracted :
    ((extract_md ascii skipping).fragments
      ≡ record { text = codes "text"; section = some (codes "A > B"); page = none } ∷ [])
    × (extract_docx ascii []
        ≡ ok (record {
          fragments =
              record { text = codes "all staff"; section = some (codes "Scope"); page = none }
              ∷ record { text = codes "a | b"; section = some (codes "Scope"); page = none }
              ∷ [];
          meta = (codes "title", codes "Act") ∷ [];
        }))
    × (extract_pdf ascii [] ≡ raised (extraction_error no_text_msg))
unfolding extract_md extract_docx extract_pdf splitlines md_heading is_space strip join section_of
    push_heading heading_level
extracted = (refl, refl, refl)
