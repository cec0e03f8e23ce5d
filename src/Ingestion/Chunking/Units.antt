-- ===== src/Ingestion/Chunking/Units.antt =====
-- Paragraphs, sentences and hard cuts (`_atomic_units` of
-- backend/src/sovereign_rag/ingestion/chunking.py). The two regular expressions of `re.split` are
-- scanners that return the pieces; the first piece is the one being read.
use sovereign_rag.Base.{
  ℕ, zero, suc, List, [], ◌∷◌, Bool, ◌||◌, leb, ◌==◌, if◌then◌else◌, length, take, drop,
}
use sovereign_rag.Text.{Text, newline, is_space, strip}
use sovereign_rag.Effects.{Outcome, ok, raised, value_error}
use sovereign_rag.Faults.{concat_each}

-- the character opens the piece being read
abbrev pub cons_head : ℕ → List Text → List Text
cons_head c [] = (c ∷ []) ∷ []
cons_head c (p ∷ ps) = (c ∷ p) ∷ ps

-- `k` newlines that were read belong to the piece if they are fewer than two
abbrev pub after_newlines : ℕ → List Text → List Text
after_newlines zero pieces = pieces
after_newlines (suc zero) pieces = cons_head newline pieces
after_newlines (suc (suc k)) pieces = [] ∷ pieces

-- `re.split(r"\n{2,}", text)`, with `k` newlines read before
unfoldable pub paragraphs_from : ℕ → Text → List Text
paragraphs_from k [] = after_newlines k ([] ∷ [])
paragraphs_from k (c ∷ s) =
    let rest = paragraphs_from (if c == newline then suc k else zero) s in
    if c == newline then rest else after_newlines k (cons_head c rest)

unfoldable pub paragraphs : Text → List Text
unfolding paragraphs_from
paragraphs text = paragraphs_from zero text

-- `[.!?]`
abbrev pub ends_sentence : ℕ → Bool
ends_sentence c = c == b'.' || c == b'!' || c == b'?'

-- what the scanner has just read
pub data Before : Type 0 where
  -- a character of `[.!?]`, another one, or a space of a separator
  stop other gap : Before

abbrev pub reading : ℕ → Before
reading c = if ends_sentence c then stop else other

-- does this character open a separator, go on with one, or belong to a piece
abbrev pub kind_of : Before → ℕ → Before
kind_of stop c = if is_space c then gap else reading c
kind_of other c = reading c
kind_of gap c = if is_space c then gap else reading c

abbrev pub with_char : Before → Before → ℕ → List Text → List Text
with_char gap gap c rest = rest
with_char _ gap c rest = [] ∷ rest
with_char _ _ c rest = cons_head c rest

-- `re.split(r"(?<=[.!?])\s+", text)`
unfoldable pub sentences_from : Before → Text → List Text
sentences_from before [] = [] ∷ []
sentences_from before (c ∷ s) =
    let now = kind_of before c in with_char before now c (sentences_from now s)

unfoldable pub sentences : Text → List Text
unfolding sentences_from is_space
sentences text = sentences_from other text

-- `s[start : start + size] for start in range(0, len(s), size)`, `fuel` the characters left
unfoldable pub cuts : ℕ → ℕ → Text → List Text
cuts zero size s = []
cuts (suc fuel) size [] = []
cuts (suc fuel) size (c ∷ s) = take size (c ∷ s) ∷ cuts fuel size (drop size (c ∷ s))

-- `range` with a step of 0 raises
unfoldable pub hard_cuts : ℕ → Text → Outcome (List Text)
unfolding cuts
hard_cuts zero s = raised value_error
hard_cuts (suc n) s = ok (cuts (length s) (suc n) s)

-- a stripped sentence
unfoldable pub sentence_units : ℕ → Text → Outcome (List Text)
sentence_units size [] = ok []
sentence_units size (c ∷ s) =
    if leb (length (c ∷ s)) size then ok ((c ∷ s) ∷ []) else hard_cuts size (c ∷ s)

-- a stripped paragraph
unfoldable pub paragraph_units : ℕ → Text → Outcome (List Text)
paragraph_units size [] = ok []
paragraph_units size (c ∷ s) =
    if leb (length (c ∷ s)) size
    then ok ((c ∷ s) ∷ [])
    else concat_each (λ raw. sentence_units size (strip raw)) (sentences (c ∷ s))

unfoldable pub atomic_units : ℕ → Text → Outcome (List Text)
atomic_units size text = concat_each (λ raw. paragraph_units size (strip raw)) (paragraphs text)
