-- ===== src/Ingestion/Chunking/Ink.antt =====
-- Cutting a text into units loses nothing but white space (`_atomic_units` of
-- backend/src/sovereign_rag/ingestion/chunking.py).
use sovereign_rag.Base.{
  ap₂, subst, ℕ, zero, suc, ◌≤◌, ◌<◌, ◌≡◌, refl, sym, ap, ◌∙◌, List, [], ◌∷◌, ◌++◌, append_assoc,
  append-nil, arith, leb, if◌then◌else◌, length, drop, take-append-drop, length-drop, Every,
  Bool-cases, inl, inr, ◌==◌, ==_iff,
}
use sovereign_rag.Text.{Text, newline, is_space, lstrip, rstrip, strip}
use sovereign_rag.Effects.{weaken-Allowed, raised, Never, Allowed, ok, Outcome}
use sovereign_rag.Faults.{concat_each, concat_each-Allowed}
use sovereign_rag.Ingestion.Chunking.Units.{
  cons_head, after_newlines, paragraphs_from, paragraphs, Before, stop, other, gap, kind_of,
  with_char, sentences_from, sentences, cuts, hard_cuts, sentence_units, paragraph_units,
  atomic_units,
}
use sovereign_rag.Ingestion.Chunking.Bounds.{FitsIn, atomic_units-FitsIn}

-- the characters that are no white space
unfoldable pub ink : Text → Text
ink [] = []
ink (c ∷ s) = if is_space c then ink s else c ∷ ink s

abbrev pub flat : List Text → Text
flat [] = []
flat (t ∷ ts) = t ++ flat ts

pub ink-append : (s t : Text) → ink (s ++ t) ≡ ink s ++ ink t
unfolding ink
ink-append [] t = refl
ink-append (c ∷ s) t = ground (arith, ink-append s t)

pub flat-append : (xs ys : List Text) → flat (xs ++ ys) ≡ flat xs ++ flat ys
flat-append [] ys = refl
flat-append (x ∷ xs) ys = rw (flat-append xs ys) (sym (append_assoc x (flat xs) (flat ys)))

ink-lstrip : (s : Text) → ink (lstrip s) ≡ ink s
unfolding ink lstrip
ink-lstrip [] = refl
ink-lstrip (c ∷ s) = ground (arith, ink-lstrip s)

ink-rstrip : (s : Text) → ink (rstrip s) ≡ ink s
unfolding ink rstrip
ink-rstrip [] = refl
ink-rstrip (c ∷ s) = ground (arith, ink-rstrip s)

pub ink-strip : (s : Text) → ink (strip s) ≡ ink s
unfolding strip
ink-strip s = ink-rstrip (lstrip s) ∙ ink-lstrip s

pub ink-newline : (s : Text) → ink (newline ∷ s) ≡ ink s
unfolding ink is_space
ink-newline s = refl

pub flat-cons_head : (c : ℕ) (ps : List Text) → flat (cons_head c ps) ≡ c ∷ flat ps
flat-cons_head c [] = refl
flat-cons_head c (p ∷ ps) = refl

ink-after_newlines : (k : ℕ) (ps : List Text) → ink (flat (after_newlines k ps)) ≡ ink (flat ps)
ink-after_newlines zero ps = refl
ink-after_newlines (suc zero) ps = ap ink (flat-cons_head newline ps) ∙ ink-newline (flat ps)
ink-after_newlines (suc (suc k)) ps = refl

pub ink_cons : (c : ℕ) (s t : Text) → ink s ≡ ink t → ink (c ∷ s) ≡ ink (c ∷ t)
unfolding ink
ink_cons c s t e = ground arith

ink-paragraphs_from : (k : ℕ) (s : Text) → ink (flat (paragraphs_from k s)) ≡ ink s
unfolding paragraphs_from
ink-paragraphs_from k [] = ink-after_newlines k ([] ∷ [])
ink-paragraphs_from k (c ∷ s) = elim (Bool-cases (c == newline)) [
  | inl e ↦ rw e (
      ink-paragraphs_from (suc k) s
      ∙ sym (subst (λ x. ink (x ∷ s) ≡ ink s) (sym ((==_iff c newline).0 e)) (ink-newline s)))
  | inr e ↦ rw e (
      ink-after_newlines k (cons_head c (paragraphs_from zero s))
      ∙ ap ink (flat-cons_head c (paragraphs_from zero s))
      ∙ ink_cons c _ s (ink-paragraphs_from zero s))
]

ink_gap : (before : Before) (c : ℕ) (s : Text) → kind_of before c ≡ gap → ink (c ∷ s) ≡ ink s
unfolding ink
ink_gap stop c s e = ground arith
ink_gap other c s e = ground arith
ink_gap gap c s e = ground arith

ink-with_char :
    (before now : Before) (c : ℕ) (rest : List Text) (s : Text)
    → kind_of before c ≡ now
    → ink (flat rest) ≡ ink s
    → ink (flat (with_char before now c rest)) ≡ ink (c ∷ s)
ink-with_char gap gap c rest s e h = h ∙ sym (ink_gap gap c s e)
ink-with_char stop gap c rest s e h = h ∙ sym (ink_gap stop c s e)
ink-with_char other gap c rest s e h = h ∙ sym (ink_gap other c s e)
ink-with_char stop stop c rest s e h = ap ink (flat-cons_head c rest) ∙ ink_cons c _ s h
ink-with_char stop other c rest s e h = ap ink (flat-cons_head c rest) ∙ ink_cons c _ s h
ink-with_char other stop c rest s e h = ap ink (flat-cons_head c rest) ∙ ink_cons c _ s h
ink-with_char other other c rest s e h = ap ink (flat-cons_head c rest) ∙ ink_cons c _ s h
ink-with_char gap stop c rest s e h = ap ink (flat-cons_head c rest) ∙ ink_cons c _ s h
ink-with_char gap other c rest s e h = ap ink (flat-cons_head c rest) ∙ ink_cons c _ s h

ink-sentences_from : (before : Before) (s : Text) → ink (flat (sentences_from before s)) ≡ ink s
unfolding sentences_from
ink-sentences_from before [] = refl
ink-sentences_from before (c ∷ s) =
    ink-with_char before (kind_of before c) c _ s refl (ink-sentences_from (kind_of before c) s)

pub flat-cuts : (fuel n : ℕ) (s : Text) → length s ≤ fuel → flat (cuts fuel (suc n) s) ≡ s
unfolding cuts
flat-cuts zero n [] h = refl
flat-cuts zero n (c ∷ s) h = absurd (omega arith)
flat-cuts (suc fuel) n [] h = refl
flat-cuts (suc fuel) n (c ∷ s) h =
    rw (flat-cuts fuel n (drop n s) (omega (arith, length-drop n s)))
      (ap (λ t. c ∷ t) (take-append-drop n s))

-- what the units of a text keep of it
abbrev Keeps : Text → List Text → Type 0
Keeps text units = ink (flat units) ≡ ink text

ink_self : (t : Text) → Keeps t (t ∷ [])
ink_self t = ap ink (append-nil t)

sentence_units-Keeps : (n : ℕ) (s : Text) → Allowed (Keeps s) Never (sentence_units (suc n) s)
unfolding sentence_units hard_cuts
sentence_units-Keeps n [] = refl
sentence_units-Keeps n (c ∷ s) = elim (Bool-cases (leb (length (c ∷ s)) (suc n))) [
  | inl e ↦ rw (e, Allowed) (ink_self (c ∷ s))
  | inr e ↦ rw (e, Allowed) (ap ink (flat-cuts (suc (length s)) n (c ∷ s) (omega arith)))
]

abbrev KeepsAll : List Text → List Text → Type 0
KeepsAll texts units = ink (flat units) ≡ ink (flat texts)

keep_all :
    (x : Text) (xs bs cs : List Text)
    → KeepsAll (x ∷ []) bs
    → KeepsAll xs cs
    → KeepsAll (x ∷ xs) (bs ++ cs)
keep_all x xs bs cs h k =
    ap ink (flat-append bs cs)
    ∙ ink-append (flat bs) (flat cs)
    ∙ ap₂ (λ a b. a ++ b) (h ∙ ap ink (append-nil x)) k
    ∙ sym (ink-append x (flat xs))

-- the units of a stripped text are units of the text
stripped :
    (raw : Text) (r : Outcome (List Text))
    → Allowed (Keeps (strip raw)) Never r
    → Allowed (KeepsAll (raw ∷ [])) Never r
stripped raw r h =
    weaken-Allowed r h (λ units k. k ∙ ink-strip raw ∙ sym (ap ink (append-nil raw))) (λ e x. x)

-- the units of all the pieces of a text are units of the text
of_pieces :
    (pieces : List Text) (text : Text) (r : Outcome (List Text))
    → ink (flat pieces) ≡ ink text
    → Allowed (KeepsAll pieces) Never r
    → Allowed (Keeps text) Never r
of_pieces pieces text r e h = weaken-Allowed r h (λ units k. k ∙ e) (λ x b. b)

paragraph_units-Keeps : (n : ℕ) (s : Text) → Allowed (Keeps s) Never (paragraph_units (suc n) s)
unfolding paragraph_units sentences
paragraph_units-Keeps n [] = refl
paragraph_units-Keeps n (c ∷ s) =
    let each = λ (raw : Text). sentence_units (suc n) (strip raw) in
    let pieces = sentences_from other (c ∷ s) in
    elim (Bool-cases (leb (length (c ∷ s)) (suc n))) [
      | inl e ↦ rw (e, Allowed) (ink_self (c ∷ s))
      | inr e ↦
          rw (e, Allowed)
            (of_pieces pieces (c ∷ s) (concat_each each pieces) (ink-sentences_from other (c ∷ s)) (
              concat_each-Allowed KeepsAll Never each refl keep_all
                (λ raw. stripped raw _ (sentence_units-Keeps n (strip raw))) pieces))
    ]

atomic_units-Keeps : (n : ℕ) (text : Text) → Allowed (Keeps text) Never (atomic_units (suc n) text)
unfolding atomic_units paragraphs
atomic_units-Keeps n text =
    let each = λ (raw : Text). paragraph_units (suc n) (strip raw) in
    let pieces = paragraphs_from zero text in
    of_pieces pieces text (concat_each each pieces) (ink-paragraphs_from zero text) (
      concat_each-Allowed KeepsAll Never each refl keep_all
        (λ raw. stripped raw _ (paragraph_units-Keeps n (strip raw))) pieces)

Allowed-both :
    {A : Type 0} (P Q : A → Type 0) (r : Outcome A)
    → Allowed P Never r
    → Allowed Q Never r
    → Allowed (λ a. P a × Q a) Never r
Allowed-both P Q (ok a) h k = (h, k)
Allowed-both P Q (raised e) h k = h

-- With a size above 0, every text is cut into non-empty units of at most that size, and the units
-- together hold all its characters that are not white space, in their order.
pub atomic_units-lossless :
    (size : ℕ) (text : Text)
    → 0 < size
    → Allowed
        (λ units. Every (FitsIn size) units × (ink (flat units) ≡ ink text))
        Never
        (atomic_units size text)
atomic_units-lossless zero text pos = absurd (omega arith)
atomic_units-lossless (suc n) text pos =
    Allowed-both (Every (FitsIn (suc n))) (Keeps text) _ (atomic_units-FitsIn (suc n) text pos)
      (atomic_units-Keeps n text)
