-- ===== src/Redaction/Names.antt =====
-- The masking of names (`_build_ner_redactor` and `create_redactor`,
-- backend/src/sovereign_rag/redaction.py). The analyzer is a parameter.
use sovereign_rag.Base.{
  sym, ◌∙◌, ℕ, zero, suc, ◌≤◌, ◌≡◌, refl, ap, inl, inr, List, [], ◌∷◌, ◌++◌, Bool, ◌||◌, Bool-cases,
  ltb, if◌then◌else◌, length, take, drop, sort_by, append_assoc, arith, length-append, length-take,
}
use sovereign_rag.Text.{Text, codes, same_text}
use sovereign_rag.Redaction.{UnicodeData, redact_patterns}
use sovereign_rag.Redaction.Language.{Language, guess_language}

-- what the analyzer recognises, by its place in the text
pub record Span : Type 0 where
  pub start : ℕ
  pub end : ℕ
  pub entity_type : Text

-- `analyzer.analyze`
abbrev pub Analyzer : Type 0
Analyzer = Text → Language → List Span

abbrev pub is_person : Span → Bool
is_person s = same_text s.entity_type (codes "PERSON") || same_text s.entity_type (codes "PER")

abbrev pub name_mask : Text
name_mask = codes "[name redacted]"

unfoldable pub splice : Span → Text → Text
splice s text = take s.start text ++ (name_mask ++ drop s.end text)

-- the loop over the sorted spans
unfoldable pub mask_names : List Span → Text → Text
unfolding splice
mask_names [] text = text
mask_names (s ∷ spans) text = mask_names spans (if is_person s then splice s text else text)

-- `sorted(spans, key=start, reverse=True)`
unfoldable pub last_first : List Span → List Span
last_first = sort_by (λ a b. ltb a.start b.start)

-- `run`
unfoldable pub redact_names : UnicodeData → Analyzer → Text → Text
unfolding last_first mask_names redact_patterns
redact_names u analyze text =
    let masked = redact_patterns u text in
    mask_names (last_first (analyze masked (guess_language u masked))) masked

-- the spans stand apart and end by `n`, the last one first
abbrev pub IsApart : ℕ → List Span → Type 0
IsApart n [] = Unit
IsApart n (s ∷ spans) = (s.start ≤ s.end) × (s.end ≤ n) × IsApart s.start spans

-- the text in pieces: only what the persons' spans cover is replaced
unfoldable pub without_names : List Span → Text → Text
without_names [] text = text
without_names (s ∷ spans) text =
    if is_person s
    then without_names spans (take s.start text) ++ (name_mask ++ drop s.end text)
    else without_names spans text

weaken-IsApart : (m n : ℕ) (spans : List Span) → m ≤ n → IsApart m spans → IsApart n spans
weaken-IsApart m n [] h k = tt
weaken-IsApart m n (s ∷ spans) h (a, b, c) = (a, omega arith, c)

take_append : (n : ℕ) (xs ys : Text) → n ≤ length xs → take n (xs ++ ys) ≡ take n xs
take_append zero xs ys h = refl
take_append (suc n) [] ys h = absurd (omega arith)
take_append (suc n) (x ∷ xs) ys h = ap (λ t. x ∷ t) (take_append n xs ys (omega arith))

drop_append : (n : ℕ) (xs ys : Text) → n ≤ length xs → drop n (xs ++ ys) ≡ drop n xs ++ ys
drop_append zero xs ys h = refl
drop_append (suc n) [] ys h = absurd (omega arith)
drop_append (suc n) (x ∷ xs) ys h = drop_append n xs ys (omega arith)

splice_append :
    (s : Span) (xs ys : Text)
    → s.start ≤ s.end
    → s.end ≤ length xs
    → splice s (xs ++ ys) ≡ splice s xs ++ ys
unfolding splice
splice_append s xs ys h k =
    rw (take_append s.start xs ys (omega arith), drop_append s.end xs ys k)
      (sym (append_assoc (take s.start xs) (name_mask ++ drop s.end xs) ys))

length-splice : (s : Span) (xs : Text) → s.start ≤ length xs → s.start ≤ length (splice s xs)
unfolding splice
length-splice s xs h =
    omega
      (arith, length-append (take s.start xs) (name_mask ++ drop s.end xs), length-take s.start xs)

-- what stands behind all spans stays
mask_names-append :
    (spans : List Span) (xs ys : Text)
    → IsApart (length xs) spans
    → mask_names spans (xs ++ ys) ≡ mask_names spans xs ++ ys
unfolding mask_names
mask_names-append [] xs ys h = refl
mask_names-append (s ∷ spans) xs ys (a, b, c) = elim (Bool-cases (is_person s)) [
  | inl e ↦
      rw (e, splice_append s xs ys a b)
        (mask_names-append spans (splice s xs) ys (
          weaken-IsApart s.start (length (splice s xs)) spans (length-splice s xs (omega arith)) c))
  | inr e ↦
      rw e
        (mask_names-append spans xs ys (weaken-IsApart s.start (length xs) spans (omega arith) c))
]

cut :
    (spans : List Span) (s : Span) (text : Text)
    → mask_names spans (splice s text)
      ≡ mask_names spans (take s.start text ++ (name_mask ++ drop s.end text))
unfolding splice
cut spans s text = refl

-- cutting from the end to the start never moves a span that is still to come
pub mask_names_lem :
    (spans : List Span) (text : Text)
    → IsApart (length text) spans
    → mask_names spans text ≡ without_names spans text
unfolding mask_names without_names
mask_names_lem [] text h = refl
mask_names_lem (s ∷ spans) text (a, b, c) = elim (Bool-cases (is_person s)) [
  | inl e ↦
      let whole : s.start ≤ length (take s.start text) = omega (arith, length-take s.start text) in
      let apart = weaken-IsApart s.start (length (take s.start text)) spans whole c in
      rw e (
        cut spans s text
        ∙ mask_names-append spans (take s.start text) (name_mask ++ drop s.end text) apart
        ∙ ap (λ t. t ++ (name_mask ++ drop s.end text))
            (mask_names_lem spans (take s.start text) apart))
  | inr e ↦
      rw e (mask_names_lem spans text (weaken-IsApart s.start (length text) spans (omega arith) c))
]

pub data RedactionProvider : Type 0 where
  nothing patterns ner : RedactionProvider

unfoldable pub create_redactor : UnicodeData → Analyzer → RedactionProvider → Text → Text
unfolding redact_patterns redact_names
create_redactor u analyze nothing text = text
create_redactor u analyze patterns text = redact_patterns u text
create_redactor u analyze ner text = redact_names u analyze text
