-- ===== src/Ingestion/Chunking/Tail.antt =====
-- The word-aligned tail that the next chunk starts with (`_overlap_tail` of
-- backend/src/sovereign_rag/ingestion/chunking.py). An overlap below 0 acts as 0.
use sovereign_rag.Base.{
  ℕ, ◌-◌, Option, none, some, [], ◌∷◌, Bool, false, not, ◌&&◌, ◌||◌, leb, ◌==◌, if◌then◌else◌,
  is_empty, length, drop, get_elem?,
}
use sovereign_rag.Text.{Text, is_space, strip}

abbrev pub space_at : Option ℕ → Bool
space_at none = false
space_at (some c) = is_space c

-- `re.search(r"\s", tail)`, and what stands behind the match
unfoldable pub after_space : Text → Option Text
after_space [] = none
after_space (c ∷ s) = if is_space c then some s else after_space s

abbrev pub strip_found : Option Text → Text
strip_found none = []
strip_found (some s) = strip s

-- the half-word at the start is dropped
unfoldable pub align : Bool → Text → Text
unfolding after_space
align space_before tail =
    if not space_before && not (space_at (get_elem? tail 0))
    then strip_found (after_space tail)
    else strip tail

unfoldable pub overlap_tail : Text → ℕ → Text
overlap_tail text overlap =
    if overlap == 0 || is_empty text
    then []
    else if leb (length text) overlap
    then text
    else align (space_at (get_elem? text (length text - overlap - 1)))
        (drop (length text - overlap) text)
