-- ===== src/Paths.antt =====
-- File names: `Path(name).suffix.lower()`, and the content type that a suffix stands for
-- (`_SUPPORTED_EXTENSIONS` of backend/src/sovereign_rag/ingestion/service.py and
-- `_EXTENSION_TO_TYPE` of backend/src/sovereign_rag/routes/documents.py).
mod Tests
use sovereign_rag.Base.{
  ◌+◌, ◌||◌, ℕ, Option, none, some, List, [], ◌∷◌, ◌++◌, Bool, true, false, ◌&&◌, leb, ◌==◌,
  if◌then◌else◌, is_empty, map,
}
use sovereign_rag.Text.{Text, codes, same_text}

-- the last component that is neither empty nor `.`; `word` is the component being read
unfoldable pub name_from : Text → Text → Text → Text
name_from best word [] = if is_empty word || same_text word (codes ".") then best else word
name_from best word (c ∷ path) =
    let inner = name_from best (word ++ c ∷ []) path in
    let next =
      name_from (if is_empty word || same_text word (codes ".") then best else word) [] path in
    if c == b'/' then next else inner

-- what stands from the last dot on, if there is one
unfoldable pub from_last_dot : Text → Option Text
from_last_dot [] = none
from_last_dot (c ∷ s) = elim (from_last_dot s) [
  | some t ↦ some t
  | none ↦ if c == b'.' then some (c ∷ s) else none
]

-- a dot that opens the name, or ends it, opens no suffix
abbrev pub suffix_of : Text → Text
suffix_of [] = []
suffix_of (c ∷ s) = elim (from_last_dot s) [
  | none ↦ []
  | some t ↦ if same_text t (codes ".") then [] else t
]

-- `str.lower` of ASCII; no other character becomes a letter of a known suffix
unfoldable pub suffix : Text → Text
unfolding name_from from_last_dot
suffix path =
    map (λ c. if leb 65 c && leb c 90 then c + 32 else c) (suffix_of (name_from [] [] path))

unfoldable pub content_type_of : Text → Option Text
content_type_of s =
    if same_text s (codes ".pdf")
    then some (codes "pdf")
    else if same_text s (codes ".docx")
    then some (codes "docx")
    else if same_text s (codes ".md")
    then some (codes "md")
    else if same_text s (codes ".txt")
    then some (codes "txt")
    else none
