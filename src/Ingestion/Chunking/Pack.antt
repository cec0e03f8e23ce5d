-- ===== src/Ingestion/Chunking/Pack.antt =====
-- Greedy packing (`_pack` of backend/src/sovereign_rag/ingestion/chunking.py).
use sovereign_rag.Base.{ℕ, ◌+◌, List, [], ◌∷◌, ◌++◌, leb, if◌then◌else◌, is_empty, length}
use sovereign_rag.Text.{Text, newline}
use sovereign_rag.Ingestion.Chunking.Tail.{overlap_tail}

-- what a unit does to the chunk being packed
pub data PackStep : Type 0 where
  -- the chunk goes on as this text
  go_on : Text → PackStep
  -- the chunk is closed, and this text opens the next
  close : Text → PackStep

-- `f"{tail}\n{unit}" if tail else unit`
unfoldable pub reopen : Text → Text → Text
reopen [] unit = unit
reopen (c ∷ tail) unit = (c ∷ tail) ++ newline ∷ unit

-- the body of the loop, for `_pack` and `_split_plain` alike
unfoldable pub pack_step : ℕ → ℕ → Text → Text → PackStep
unfolding reopen
pack_step size overlap [] unit = go_on unit
pack_step size overlap (c ∷ current) unit =
    if leb (length (c ∷ current) + 1 + length unit) size
    then go_on ((c ∷ current) ++ newline ∷ unit)
    else close (reopen (overlap_tail (c ∷ current) overlap) unit)

unfoldable pub pack_from : ℕ → ℕ → Text → List Text → List Text
pack_from size overlap current [] = if is_empty current then [] else current ∷ []
pack_from size overlap current (unit ∷ units) = elim (pack_step size overlap current unit) [
  | go_on text ↦ pack_from size overlap text units
  | close text ↦ current ∷ pack_from size overlap text units
]

unfoldable pub pack : ℕ → ℕ → List Text → List Text
unfolding pack_from
pack size overlap units = pack_from size overlap [] units
