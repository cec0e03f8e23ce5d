-- ===== src/Ingestion/Chunking/Joined.antt =====
-- With no overlap, packing only chooses where to break: the chunks joined by newlines are the
-- units joined by newlines (`_pack` of backend/src/sovereign_rag/ingestion/chunking.py).
use sovereign_rag.Base.{
  ℕ, ◌+◌, ◌<◌, ◌≡◌, refl, ap, ◌∙◌, inl, inr, List, [], ◌∷◌, ◌++◌, append_assoc, arith, Every,
  length, Bool-cases, leb,
}
use sovereign_rag.Text.{Text, newline, join}
use sovereign_rag.Ingestion.Chunking.Tail.{overlap_tail}
use sovereign_rag.Ingestion.Chunking.Pack.{pack_step, pack_from, pack}
use sovereign_rag.Ingestion.Chunking.Bounds.{FitsIn}

-- joining two neighbours first changes nothing
join_pair :
    (a b : Text) (rest : List Text)
    → join (newline ∷ []) ((a ++ newline ∷ b) ∷ rest) ≡ join (newline ∷ []) (a ∷ b ∷ rest)
unfolding join
join_pair a b [] = refl
join_pair a b (t ∷ rest) = append_assoc a (newline ∷ b) _

-- equal joins under one head
join_under :
    (a : Text) (xs : List Text) (b : Text) (ys : List Text)
    → join (newline ∷ []) xs ≡ join (newline ∷ []) (b ∷ ys)
    → 0 < length xs
    → join (newline ∷ []) (a ∷ xs) ≡ join (newline ∷ []) (a ∷ b ∷ ys)
unfolding join
join_under a [] b ys e pos = absurd (omega arith)
join_under a (x ∷ xs) b ys e pos = ap (λ t. a ++ (newline ∷ t)) e

-- a chunk that is not empty is not lost
some_chunk :
    (size overlap c : ℕ) (current : Text) (units : List Text)
    → 0 < length (pack_from size overlap (c ∷ current) units)
unfolding pack_from pack_step
some_chunk size overlap c current [] = omega arith
some_chunk size overlap c current (u ∷ units) =
    elim (Bool-cases (leb (length (c ∷ current) + 1 + length u) size)) [
      | inl e ↦ rw (e, length, pack_from) (some_chunk size overlap c (current ++ newline ∷ u) units)
      | inr e ↦ rw (e, length, pack_from) (omega arith)
    ]

joined :
    (size : ℕ) (units : List Text) (c : ℕ) (current : Text)
    → Every (FitsIn size) units
    → join (newline ∷ []) (pack_from size 0 (c ∷ current) units)
      ≡ join (newline ∷ []) ((c ∷ current) ∷ units)
unfolding pack_from pack_step overlap_tail
joined size [] c current k = refl
joined size ([] ∷ units) c current k = absurd (omega arith)
joined size ((d ∷ u) ∷ units) c current k =
    elim (Bool-cases (leb (length (c ∷ current) + 1 + length (d ∷ u)) size)) [
      | inl e ↦
          rw (e, pack_from)
            (joined size units c (current ++ newline ∷ d ∷ u) k.1
              ∙ join_pair (c ∷ current) (d ∷ u) units)
      | inr e ↦
          rw (e, pack_from)
            (join_under (c ∷ current) (pack_from size 0 (d ∷ u) units) (d ∷ u) units
              (joined size units d u k.1) (some_chunk size 0 d u units))
    ]

-- With no overlap, the chunks that units are packed into, each unit non-empty and at most as long
-- as the size, joined by newlines, are the units joined by newlines.
pub join-pack :
    (size : ℕ) (units : List Text)
    → Every (FitsIn size) units
    → join (newline ∷ []) (pack size 0 units) ≡ join (newline ∷ []) units
unfolding pack pack_from pack_step
join-pack size [] k = refl
join-pack size ([] ∷ units) k = absurd (omega arith)
join-pack size ((c ∷ current) ∷ units) k = joined size units c current k.1
