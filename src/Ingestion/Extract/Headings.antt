-- ===== src/Ingestion/Extract/Headings.antt =====
-- Lines, headings and the heading stack (`_MD_HEADING`, `_section`, `_heading_level` and the two
-- loops of backend/src/sovereign_rag/ingestion/extract.py).
use sovereign_rag.Base.{
  ℕ, zero, suc, ◌+◌, ◌*◌, ◌-◌, Option, none, some, List, [], ◌∷◌, ◌++◌, Bool, true, false, ◌&&◌,
  ◌||◌, leb, ◌==◌, if◌then◌else◌, is_empty, take, forall_in,
}
use sovereign_rag.Text.{Text, codes, is_space, join, strip}
use sovereign_rag.Ingestion.Chunking.Units.{cons_head}

-- the line boundaries of `str.splitlines`
unfoldable pub is_break : ℕ → Bool
is_break c = (leb 10 c && leb c 13) || (leb 28 c && leb c 30) || c == 133 || c == 8232 || c == 8233

abbrev pub starts_with_newline : Text → Bool
starts_with_newline [] = false
starts_with_newline (c ∷ s) = c == 10

-- `text.splitlines()`: a carriage return before a newline is one boundary with it
unfoldable pub splitlines : Text → List Text
unfolding is_break
splitlines [] = []
splitlines (c ∷ s) =
    let rest = splitlines s in
    if c == 13 && starts_with_newline s
    then rest
    else if is_break c
    then [] ∷ rest
    else cons_head c rest

-- the length of the run of `#`, and what follows
abbrev pub hashes : Text → ℕ × Text
hashes [] = (0, [])
hashes (c ∷ s) = if c == b'#' then (suc (hashes s).0, (hashes s).1) else (0, c ∷ s)

abbrev pub opens_with_space : Text → Bool
opens_with_space [] = false
opens_with_space (c ∷ s) = is_space c

-- a match of `^(#{1,6})\s+(.*\S)\s*$`: the length of group 1, and group 2
unfoldable pub md_heading : Text → Option (ℕ × Text)
md_heading line =
    let (level, rest) = hashes line in
    let title = strip rest in
    if leb 1 level
      && leb level 6
      && opens_with_space rest
      && (if is_empty title then false else true)
    then some (level, title)
    else none

-- `del stack[level - 1 :]`: level 0 deletes from -1 on, which is the last entry
abbrev pub cut_stack : ℕ → List Text → List Text
cut_stack zero [] = []
cut_stack zero (t ∷ []) = []
cut_stack zero (t ∷ u ∷ stack) = t ∷ cut_stack zero (u ∷ stack)
cut_stack (suc level) stack = take level stack

-- then `stack.append(text)`
unfoldable pub push_heading : ℕ → Text → List Text → List Text
push_heading level title stack = cut_stack level stack ++ title ∷ []

-- `_section`
unfoldable pub section_of : List Text → Option Text
section_of [] = none
section_of (t ∷ stack) = some (join (codes " > ") (t ∷ stack))

-- `s.removeprefix(prefix)`, if it starts with it
abbrev pub after_prefix : Text → Text → Option Text
after_prefix [] s = some s
after_prefix (p ∷ prefix) [] = none
after_prefix (p ∷ prefix) (c ∷ s) = if p == c then after_prefix prefix s else none

abbrev pub is_digit : ℕ → Bool
is_digit c = leb 48 c && leb c 57

abbrev pub value_from : ℕ → Text → ℕ
value_from n [] = n
value_from n (c ∷ s) = value_from (n * 10 + (c - 48)) s

-- `int(suffix)` if `suffix.isdigit()`, of ASCII digits
abbrev pub level_of : Option Text → Option ℕ
level_of none = none
level_of (some []) = none
level_of (some (c ∷ s)) = if forall_in is_digit (c ∷ s) then some (value_from 0 (c ∷ s)) else none

-- `_heading_level`, of the name of the style
unfoldable pub heading_level : Option Text → Option ℕ
heading_level none = none
heading_level (some name) = level_of (after_prefix (codes "Heading ") name)
