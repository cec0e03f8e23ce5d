-- ===== src/Ingestion/Chunking/Coverage.antt =====
-- Packing puts every unit whole into a chunk; with no overlap the chunks, joined, are the units,
-- joined (`_pack` of backend/src/sovereign_rag/ingestion/chunking.py).
use sovereign_rag.Base.{
  Every-weaken, ℕ, ◌+◌, ◌<◌, ◌≡◌, sym, ap, ◌⊎◌, inl, inr, List, [], ◌∷◌, ◌++◌, append_assoc,
  append-nil, arith, Every, length, Bool-cases, leb,
}
use sovereign_rag.Text.{Text, newline}
use sovereign_rag.Ingestion.Chunking.Tail.{overlap_tail}
use sovereign_rag.Ingestion.Chunking.Pack.{
  PackStep, go_on, close, reopen, pack_step, pack_from, pack,
}
use sovereign_rag.Ingestion.Chunking.Bounds.{FitsIn, StepFits, chunk_limit, pack_step-StepFits}

-- `u` stands in `t` as it is
abbrev pub IsInfix : Text → Text → Type 0
IsInfix u t = (before : Text) × (after : Text) × (t ≡ before ++ (u ++ after))

abbrev pub StandsIn : Text → List Text → Type 0
StandsIn u [] = ⊥
StandsIn u (chunk ∷ chunks) = IsInfix u chunk ⊎ StandsIn u chunks

infix_self : (u : Text) → IsInfix u u
infix_self u = ([], [], sym (append-nil u))

infix_left : (v s t : Text) → IsInfix v s → IsInfix v (s ++ t)
infix_left v s t (a, b, e) = (a, b ++ t, rw e (simp append_assoc))

infix_right : (s t : Text) → IsInfix t (s ++ t)
infix_right s t = (s, [], ap (λ x. s ++ x) (sym (append-nil t)))

infix_joined : (s u : Text) → IsInfix u (s ++ newline ∷ u)
infix_joined s u = (s ++ newline ∷ [], [], simp (append_assoc, append-nil))

infix_reopen : (tail u : Text) → IsInfix u (reopen tail u)
unfolding reopen
infix_reopen [] u = infix_self u
infix_reopen (c ∷ tail) u = infix_joined (c ∷ tail) u

-- the text that is packed on holds the unit, and what the chunk held if it is not closed
abbrev StepHolds : Text → Text → PackStep → Type 0
StepHolds current unit (go_on t) = ((v : Text) → IsInfix v current → IsInfix v t) × IsInfix unit t
StepHolds current unit (close t) = IsInfix unit t

step_holds :
    (size overlap c : ℕ) (current unit : Text)
    → StepHolds (c ∷ current) unit (pack_step size overlap (c ∷ current) unit)
unfolding pack_step
step_holds size overlap c current unit =
    elim (Bool-cases (leb (length (c ∷ current) + 1 + length unit) size)) [
      | inl e ↦
          rw (e, StepHolds)
            (
              (λ v h. infix_left v (c ∷ current) (newline ∷ unit) h),
              infix_joined (c ∷ current) unit,
            )
      | inr e ↦ rw (e, StepHolds) (infix_reopen (overlap_tail (c ∷ current) overlap) unit)
    ]

-- what stands in the chunk being packed, and the units to come, stand in the chunks
abbrev AreCovered : Text → List Text → List Text → Type 0
AreCovered current units chunks =
    ((v : Text) → 0 < length current → IsInfix v current → StandsIn v chunks)
    × Every (λ u. StandsIn u chunks) units

module _ (size overlap : ℕ) where
  abbrev Covers : Text → List Text → Type 0
  Covers current units = AreCovered current units (pack_from size overlap current units)

  Covers-pack_step :
      (c : ℕ) (current unit : Text) (units : List Text) (step : PackStep)
      → ((t : Text) → Covers t units)
      → StepHolds (c ∷ current) unit step
      → StepFits (chunk_limit size overlap) step
      → AreCovered (c ∷ current) (unit ∷ units) (elim step [
        | go_on text ↦ pack_from size overlap text units
        | close text ↦ (c ∷ current) ∷ pack_from size overlap text units
      ])
  Covers-pack_step c current unit units (go_on t) ih h f =
      ((λ v pos i. (ih t).0 v f.0 (h.0 v i)), ((ih t).0 unit f.0 h.1, (ih t).1))
  Covers-pack_step c current unit units (close t) ih h f = (
    (λ v pos i. inl i),
    (inr ((ih t).0 unit f.0 h), Every-weaken (λ u. StandsIn u _) _ (λ u i. inr i) units (ih t).1),
  )

  covers : (units : List Text) (current : Text) → Every (FitsIn size) units → Covers current units
  unfolding pack_from pack_step
  covers [] [] k = ((λ v pos i. absurd (omega arith)), tt)
  covers [] (c ∷ current) k = ((λ v pos i. inl i), tt)
  covers (unit ∷ units) [] k =
      let rest = covers units unit k.1 in
      ((λ v pos i. absurd (omega arith)), (rest.0 unit k.0.0 (infix_self unit), rest.1))
  covers (unit ∷ units) (c ∷ current) k =
      Covers-pack_step c current unit units (pack_step size overlap (c ∷ current) unit)
        (λ t. covers units t k.1) (step_holds size overlap c current unit)
        (pack_step-StepFits size overlap (c ∷ current) unit k.0)

-- Let every unit be non-empty and at most as long as the size, as atomic units are. Every unit
-- that is packed stands whole, as consecutive characters, in one of the chunks, whatever the
-- overlap.
pub pack-covers :
    (size overlap : ℕ) (units : List Text)
    → Every (FitsIn size) units
    → Every (λ u. StandsIn u (pack size overlap units)) units
unfolding pack
pack-covers size overlap units k = (covers size overlap units [] k).1
