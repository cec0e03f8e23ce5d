-- ===== src/Ingestion/Extract/Formats.antt =====
-- The extractors of the four formats (backend/src/sovereign_rag/ingestion/extract.py). pypdf and
-- python-docx give the data that they read, or raise.
use sovereign_rag.Base.{
  ℕ, suc, Option, none, some, List, [], ◌∷◌, ◌++◌, Bool, not, ◌||◌, ltb, ◌==◌, if◌then◌else◌,
  is_empty, length, map, select, exists_in,
}
use sovereign_rag.Text.{Text, codes, newline, join, strip, same_text}
use sovereign_rag.Effects.{Fault, extraction_error, Outcome, ok, raised}
use sovereign_rag.Faults.{◌>>=◌}
use sovereign_rag.Ingestion.Extract.{Fragment, ExtractedDoc}
use sovereign_rag.Ingestion.Extract.Headings.{
  splitlines, md_heading, push_heading, section_of, heading_level,
}

abbrev pub Bytes : Type 0
Bytes = List ℕ

-- an entry of a document made by `Document.iter_inner_content`
pub data DocxItem : Type 0 where
  -- a paragraph: the name of its style, and its text
  paragraph : Option Text → Text → DocxItem
  -- a table: the texts of its cells, row by row
  table : List (List Text) → DocxItem

-- what a file says of its title and its author
pub record Properties : Type 0 where
  pub title : Option Text
  pub author : Option Text

pub record DocxFile : Type 0 where
  pub items : List DocxItem
  pub core_properties : Properties

pub record PdfFile : Type 0 where
  -- `page.extract_text()` of each page, which may raise or be None
  pub pages : List (Outcome (Option Text))
  pub metadata : Option Properties

-- the packages, and the codec of the language; `read_pdf` raises whatever pypdf raises, as a text
pub record Readers : Type 0 where
  pub decode_utf8 : Bytes → Option Text
  pub read_docx : Bytes → Outcome DocxFile
  pub read_pdf : Bytes → Outcome PdfFile
  pub str_of_fault : Fault → Text

abbrev pub no_text_msg : Text
no_text_msg = codes "no extractable text (scanned PDF? OCR is out of scope, see README)"

abbrev pub or_latin1 : Bytes → Option Text → Text
or_latin1 bytes none = bytes
or_latin1 bytes (some text) = text

-- `_decode`: each byte of Latin-1 is its code point
unfoldable pub decode : Readers → Bytes → Text
decode readers bytes = or_latin1 bytes (readers.decode_utf8 bytes)

-- `flush` of `_extract_md`
unfoldable pub flush_block : List Text → List Text → List Fragment
flush_block stack block =
    let content = strip (join (newline ∷ []) block) in
    if is_empty content
    then []
    else record { text = content; section = section_of stack; page = none } ∷ []

-- the loop over the lines, with the stack and the block
unfoldable pub md_from : List Text → List Text → List Text → List Fragment
unfolding flush_block
md_from stack block [] = flush_block stack block
md_from stack block (line ∷ lines) = elim (md_heading line) [
  | some (level, title) ↦
      flush_block stack block ++ md_from (push_heading level title stack) [] lines
  | none ↦ md_from stack (block ++ line ∷ []) lines
]

-- `_extract_md`
unfoldable pub extract_md : Readers → Bytes → ExtractedDoc
unfolding md_from decode
extract_md readers data_bytes = record {
  fragments = md_from [] [] (splitlines (decode readers data_bytes));
  meta = [];
}

-- `_extract_txt`
unfoldable pub extract_txt : Readers → Bytes → ExtractedDoc
unfolding decode
extract_txt readers data_bytes =
    let text = strip (decode readers data_bytes) in
    record {
      fragments =
          if is_empty text then [] else record { text = text; section = none; page = none } ∷ [];
      meta = [];
    }

-- `if title: meta[key] = title`
abbrev pub entry : Text → Option Text → List (Text × Text)
entry key none = []
entry key (some []) = []
entry key (some (c ∷ s)) = (key, c ∷ s) ∷ []

unfoldable pub meta_of : Properties → List (Text × Text)
meta_of props = entry (codes "title") props.title ++ entry (codes "author") props.author

-- `row.strip(" |")` is not empty
abbrev pub has_cell_text : Text → Bool
has_cell_text row = exists_in (λ c. not (c == b' ' || c == b'|')) row

unfoldable pub table_text : List (List Text) → Text
table_text rows =
    join (newline ∷ [])
      (select has_cell_text (map (λ cells. join (codes " | ") (map strip cells)) rows))

abbrev pub fragment_of : List Text → Text → List Fragment
fragment_of stack [] = []
fragment_of stack (c ∷ s) = record { text = c ∷ s; section = section_of stack; page = none } ∷ []

-- a heading without text leaves the stack as it is
abbrev pub push_text : ℕ → Text → List Text → List Text
push_text level [] stack = stack
push_text level (c ∷ s) stack = push_heading level (c ∷ s) stack

unfoldable pub docx_from : List Text → List DocxItem → List Fragment
unfolding table_text
docx_from stack [] = []
docx_from stack (paragraph style text ∷ rest) = elim (heading_level style) [
  | some level ↦ docx_from (push_text level (strip text) stack) rest
  | none ↦ fragment_of stack (strip text) ++ docx_from stack rest
]
docx_from stack (table rows ∷ rest) = fragment_of stack (table_text rows) ++ docx_from stack rest

-- `_extract_docx`
unfoldable pub extract_docx : Readers → Bytes → Outcome ExtractedDoc
unfolding docx_from meta_of
extract_docx readers data_bytes = readers.read_docx data_bytes >>= λ file.
    ok (record { fragments = docx_from [] file.items; meta = meta_of file.core_properties })

-- a page without text has no fragment
abbrev pub page_fragment : ℕ → Option Text → List Fragment
page_fragment number none = []
page_fragment number (some text) =
    if is_empty (strip text)
    then []
    else record { text = strip text; section = none; page = some number } ∷ []

-- the pages from this number on
unfoldable pub pages_from : ℕ → List (Outcome (Option Text)) → Outcome (List Fragment)
pages_from number [] = ok []
pages_from number (page ∷ pages) =
    let rest = pages_from (suc number) pages in
    page >>= λ text. rest >>= λ fragments. ok (page_fragment number text ++ fragments)

abbrev pub pdf_meta : Option Properties → List (Text × Text)
pdf_meta none = []
pdf_meta (some info) = meta_of info

-- fewer than 20 characters in all are no text
unfoldable pub enough_text : Option Properties → List Fragment → Outcome ExtractedDoc
unfolding meta_of
enough_text info fragments =
    if ltb (length (strip (join [] (map (λ f. f.text) fragments)))) 20
    then raised (extraction_error no_text_msg)
    else ok (record { fragments = fragments; meta = pdf_meta info })

abbrev pub pdf_of : Readers → Outcome PdfFile → Outcome ExtractedDoc
pdf_of readers (raised e) =
    raised (extraction_error (codes "unreadable PDF: " ++ readers.str_of_fault e))
pdf_of readers (ok file) =
    pages_from 1 file.pages >>= λ fragments. enough_text file.metadata fragments

-- `_extract_pdf`
unfoldable pub extract_pdf : Readers → Bytes → Outcome ExtractedDoc
unfolding pages_from enough_text
extract_pdf readers data_bytes = pdf_of readers (readers.read_pdf data_bytes)

-- `extract`, by the content type; `repr` of the type is its text in quotes
unfoldable pub extract : Readers → Bytes → Text → Outcome ExtractedDoc
unfolding extract_pdf extract_docx extract_md extract_txt
extract readers data_bytes content_type =
    if same_text content_type (codes "pdf")
    then extract_pdf readers data_bytes
    else if same_text content_type (codes "docx")
    then extract_docx readers data_bytes
    else if same_text content_type (codes "md")
    then ok (extract_md readers data_bytes)
    else if same_text content_type (codes "txt")
    then ok (extract_txt readers data_bytes)
    else raised
        (extraction_error (codes "unsupported content type: '" ++ (content_type ++ codes "'")))
