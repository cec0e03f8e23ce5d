-- ===== src/Ingestion/Chunking/Bounds.antt =====
-- Sizes: units fit in a chunk, tails in the overlap, and chunks in `size + overlap + 1`
-- (backend/src/sovereign_rag/ingestion/chunking.py).
use sovereign_rag.Base.{
  refl, ◌&&◌, not, leb→le, get_elem?, Bool, ℕ, zero, suc, ◌+◌, ◌-◌, ◌≤◌, ◌<◌, ◌≡◌, Option, none,
  some, List, [], ◌∷◌, ◌++◌, arith, leb, length, length-append, length-take, length-drop, drop,
  Every, Every-append, Bool-cases, inl, inr,
}
use sovereign_rag.Text.{newline, Text, strip, length-strip}
use sovereign_rag.Effects.{Never, Allowed}
use sovereign_rag.Faults.{concat_each-Allowed}
use sovereign_rag.Ingestion.Chunking.Units.{
  cuts, hard_cuts, sentence_units, paragraph_units, atomic_units, sentences, paragraphs,
}
use sovereign_rag.Ingestion.Chunking.Tail.{space_at, strip_found, after_space, align, overlap_tail}
use sovereign_rag.Ingestion.Chunking.Pack.{PackStep, go_on, close, reopen, pack_step}

-- a unit is not empty and fits in a chunk
abbrev pub FitsIn : ℕ → Text → Type 0
FitsIn size u = (0 < length u) × (length u ≤ size)

cuts-FitsIn : (fuel n : ℕ) (s : Text) → Every (FitsIn (suc n)) (cuts fuel (suc n) s)
unfolding cuts
cuts-FitsIn zero n s = tt
cuts-FitsIn (suc fuel) n [] = tt
cuts-FitsIn (suc fuel) n (c ∷ s) = (omega (arith, length-take n s), cuts-FitsIn fuel n (drop n s))

abbrev AllFit : ℕ → List Text → List Text → Type 0
AllFit size xs units = Every (FitsIn size) units

sentence_units-FitsIn :
    (n : ℕ) (s : Text) → Allowed (Every (FitsIn (suc n))) Never (sentence_units (suc n) s)
unfolding sentence_units hard_cuts
sentence_units-FitsIn n [] = tt
sentence_units-FitsIn n (c ∷ s) = elim (Bool-cases (leb (length (c ∷ s)) (suc n))) [
  | inl e ↦ rw (e, Allowed) (ground arith)
  | inr e ↦ rw (e, Allowed) (cuts-FitsIn (suc (length s)) n (c ∷ s))
]

each_fits :
    (n : ℕ) (x : Text) (xs bs cs : List Text)
    → Every (FitsIn (suc n)) bs
    → Every (FitsIn (suc n)) cs
    → Every (FitsIn (suc n)) (bs ++ cs)
each_fits n x xs bs cs h k = Every-append (FitsIn (suc n)) bs cs h k

paragraph_units-FitsIn :
    (n : ℕ) (s : Text) → Allowed (Every (FitsIn (suc n))) Never (paragraph_units (suc n) s)
unfolding paragraph_units
paragraph_units-FitsIn n [] = tt
paragraph_units-FitsIn n (c ∷ s) = elim (Bool-cases (leb (length (c ∷ s)) (suc n))) [
  | inl e ↦ rw (e, Allowed) (ground arith)
  | inr e ↦
      rw (e, Allowed)
        (concat_each-Allowed (AllFit (suc n)) Never _ tt (each_fits n)
          (λ raw. sentence_units-FitsIn n (strip raw)) (sentences (c ∷ s)))
]

-- the units fit in the size
pub atomic_units-FitsIn :
    (size : ℕ) (text : Text)
    → 0 < size
    → Allowed (Every (FitsIn size)) Never (atomic_units size text)
unfolding atomic_units
atomic_units-FitsIn zero text h = absurd (omega arith)
atomic_units-FitsIn (suc n) text h =
    concat_each-Allowed (AllFit (suc n)) Never _ tt (each_fits n)
      (λ raw. paragraph_units-FitsIn n (strip raw)) (paragraphs text)

length-after_space : (s : Text) (t : Text) → after_space s ≡ some t → length t ≤ length s
unfolding after_space
length-after_space [] t e = absurd (cc e)
length-after_space (c ∷ s) t e = ground (arith, length-after_space s t)

length-strip_found :
    (s : Text) (o : Option Text) → after_space s ≡ o → length (strip_found o) ≤ length s
length-strip_found s none e = omega arith
length-strip_found s (some t) e = omega (arith, length-strip t, length-after_space s t e)

length-align : (before : Bool) (tail : Text) → length (align before tail) ≤ length tail
unfolding align
length-align before tail = elim (Bool-cases (not before && not (space_at (get_elem? tail 0)))) [
  | inl e ↦ rw e (length-strip_found tail (after_space tail) refl)
  | inr e ↦ rw e (length-strip tail)
]

pub length-overlap_tail : (text : Text) (overlap : ℕ) → length (overlap_tail text overlap) ≤ overlap
unfolding overlap_tail
length-overlap_tail text overlap =
    let cut = length text - overlap in
    ground (
      arith,
      length-align (space_at (get_elem? text (cut - 1))) (drop cut text),
      length-drop cut text,
    )

-- the bound that the module documents, for a chunk without its header
abbrev pub chunk_limit : ℕ → ℕ → ℕ
chunk_limit size overlap = size + overlap + 1

abbrev pub StepFits : ℕ → PackStep → Type 0
StepFits limit (go_on t) = (0 < length t) × (length t ≤ limit)
StepFits limit (close t) = (0 < length t) × (length t ≤ limit)

pub length-reopen :
    (tail unit : Text)
    → (length unit ≤ length (reopen tail unit))
      × (length (reopen tail unit) ≤ length tail + 1 + length unit)
unfolding reopen
length-reopen [] unit = omega arith
length-reopen (c ∷ tail) unit = omega (arith, length-append tail (newline ∷ unit))

pub pack_step-StepFits :
    (size overlap : ℕ) (current unit : Text)
    → FitsIn size unit
    → StepFits (chunk_limit size overlap) (pack_step size overlap current unit)
unfolding pack_step
pack_step-StepFits size overlap [] unit h = omega arith
pack_step-StepFits size overlap (c ∷ current) unit h =
    let tail = overlap_tail (c ∷ current) overlap in
    elim (Bool-cases (leb (length (c ∷ current) + 1 + length unit) size)) [
      | inl e ↦
          rw (e, StepFits) (omega (arith, length-append current (newline ∷ unit), leb→le _ _ e))
      | inr e ↦
          rw (e, StepFits)
            (omega (arith, length-reopen tail unit, length-overlap_tail (c ∷ current) overlap))
    ]

abbrev pub IsChunk : ℕ → Text → Type 0
IsChunk limit chunk = (0 < length chunk) × (length chunk ≤ limit)
