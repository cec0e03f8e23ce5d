-- ===== src/Ingestion/Chunking/Align.antt =====
-- A tail starts on a word boundary: it is a piece of the text that stands at its start or behind
-- white space, with nothing but white space behind it (`_overlap_tail` of
-- backend/src/sovereign_rag/ingestion/chunking.py).
use sovereign_rag.Base.{
  ℕ, zero, suc, ◌-◌, ◌≤◌, ◌<◌, ◌≡◌, refl, subst, sym, ap, ◌∙◌, ◌⊎◌, inl, inr, Option, none, some,
  [], ◌∷◌, ◌++◌, append_assoc, append-nil, arith, Bool, true, false, ◌&&◌, ◌||◌, ◌==◌, Bool-cases,
  leb, Every, length, drop, take, get_elem?, take-append-drop, is_empty,
}
use sovereign_rag.Text.{Text, is_space, strip, lstrip, rstrip}
use sovereign_rag.Ingestion.Chunking.Tail.{space_at, after_space, strip_found, align, overlap_tail}

abbrev pub IsBlank : Text → Type 0
IsBlank s = Every (λ c. is_space c ≡ true) s

-- the text ends in white space
abbrev pub ends_blank : Text → Bool
ends_blank [] = false
ends_blank (c ∷ []) = is_space c
ends_blank (c ∷ d ∷ s) = ends_blank (d ∷ s)

-- a word may start behind this text
abbrev pub IsBoundary : Text → Type 0
IsBoundary before = (before ≡ []) ⊎ (ends_blank before ≡ true)

-- `tail` is a piece of `text` that starts at a word and is followed by white space only
abbrev pub IsAligned : Text → Text → Type 0
IsAligned text tail =
    (before : Text) × (after : Text) × (text ≡ before ++ (tail ++ after))
    × IsBlank after
    × ((tail ≡ []) ⊎ IsBoundary before)

lstrip_split : (s : Text) → (before : Text) × (s ≡ before ++ lstrip s) × IsBlank before
unfolding lstrip
lstrip_split [] = ([], refl, tt)
lstrip_split (c ∷ s) = elim (Bool-cases (is_space c)) [
  | inl e ↦ let (b, q, k) = lstrip_split s in rw e (c ∷ b, ap (λ t. c ∷ t) q, (e, k))
  | inr e ↦ rw e ([], refl, tt)
]

IsBlank-is_empty : (r a s : Text) → is_empty r ≡ true → s ≡ r ++ a → IsBlank a → IsBlank s
IsBlank-is_empty [] a s h q k = subst IsBlank (sym q) k
IsBlank-is_empty (x ∷ r) a s h q k = absurd (cc h)

rstrip_split : (s : Text) → (after : Text) × (s ≡ rstrip s ++ after) × IsBlank after
unfolding rstrip
rstrip_split [] = ([], refl, tt)
rstrip_split (c ∷ s) =
    let (a, q, k) = rstrip_split s in
    elim (Bool-cases (is_empty (rstrip s) && is_space c)) [
      | inl e ↦
          let none_left : is_empty (rstrip s) ≡ true = ground arith in
          let blank : is_space c ≡ true = ground arith in
          rw e (c ∷ s, refl, (blank, IsBlank-is_empty (rstrip s) a s none_left q k))
      | inr e ↦ rw e (a, ap (λ t. c ∷ t) q, k)
    ]

-- what a stripped piece leaves in front of it and behind it
strip_split :
    (s : Text)
    → (before : Text) × (after : Text) × (s ≡ before ++ (strip s ++ after))
      × IsBlank before
      × IsBlank after
unfolding strip
strip_split s =
    let (b, q, k) = lstrip_split s in
    let (a, r, l) = rstrip_split (lstrip s) in (b, a, q ∙ ap (λ t. b ++ t) r, k, l)

ends_blank-append :
    (s : Text) (c : ℕ) (b : Text) → is_space c ≡ true → IsBlank b → ends_blank (s ++ (c ∷ b)) ≡ true
ends_blank-append [] c [] e k = e
ends_blank-append [] c (d ∷ b) e k = ends_blank-append [] d b k.0 k.1
ends_blank-append (x ∷ []) c b e k = ends_blank-append [] c b e k
ends_blank-append (x ∷ y ∷ s) c b e k = ends_blank-append (y ∷ s) c b e k

-- a blank piece behind a boundary leaves a boundary
IsBoundary-append : (s b : Text) → IsBoundary s → IsBlank b → IsBoundary (s ++ b)
IsBoundary-append s [] h k = rw append-nil h
IsBoundary-append s (c ∷ b) h k = inr (ends_blank-append s c b k.0 k.1)

-- A stripped rest of the text is aligned if the rest starts at a boundary.
strip-IsAligned : (front rest : Text) → IsBoundary front → IsAligned (front ++ rest) (strip rest)
strip-IsAligned front rest h =
    let (b, a, q, k, l) = strip_split rest in
    (
      front ++ b,
      a,
      ap (λ t. front ++ t) q ∙ sym (append_assoc front b (strip rest ++ a)),
      l,
      inr (IsBoundary-append front b h k),
    )

-- So it is if it stands behind white space.
behind_space :
    (front rest : Text) (c : ℕ) → is_space c ≡ true → IsAligned (front ++ (c ∷ rest)) (strip rest)
behind_space front rest c e =
    subst (λ t. IsAligned t (strip rest)) (append_assoc front (c ∷ []) rest)
      (strip-IsAligned (front ++ c ∷ []) rest (inr (ends_blank-append front c [] e tt)))

strip_first : (c : ℕ) (s : Text) → is_space c ≡ true → strip (c ∷ s) ≡ strip s
unfolding strip lstrip
strip_first c s e = rw e

after_space_split :
    (tail rest : Text)
    → after_space tail ≡ some rest
    → (before : Text) × (c : ℕ) × (tail ≡ before ++ (c ∷ rest)) × (is_space c ≡ true)
unfolding after_space
after_space_split [] rest h = absurd (cc h)
after_space_split (c ∷ s) rest h = elim (Bool-cases (is_space c)) [
  | inl e ↦ let same : s ≡ rest = ground arith in ([], c, ap (λ t. c ∷ t) same, e)
  | inr e ↦
      let (b, d, q, k) = after_space_split s rest (ground arith) in (c ∷ b, d, ap (λ t. c ∷ t) q, k)
]

nothing-IsAligned : (text : Text) → IsAligned text []
nothing-IsAligned text = (text, [], sym (append-nil text), tt, inl refl)

found-IsAligned :
    (front tail : Text) (o : Option Text)
    → after_space tail ≡ o
    → IsAligned (front ++ tail) (strip_found o)
found-IsAligned front tail none e = nothing-IsAligned (front ++ tail)
found-IsAligned front tail (some rest) e =
    let (b, c, q, k) = after_space_split tail rest e in
    subst (λ t. IsAligned t (strip rest))
      (append_assoc front b (c ∷ rest) ∙ ap (λ t. front ++ t) (sym q))
      (behind_space (front ++ b) rest c k)

-- the tail begins with white space
blank_start :
    (front tail : Text)
    → space_at (get_elem? tail 0) ≡ true
    → IsAligned (front ++ tail) (strip tail)
blank_start front [] e = absurd (cc e)
blank_start front (c ∷ s) e = rw (strip_first c s e) (behind_space front s c e)

align-IsAligned :
    (front tail : Text) (before : Bool)
    → before ≡ ends_blank front
    → IsAligned (front ++ tail) (align before tail)
unfolding align
align-IsAligned front tail true e = strip-IsAligned front tail (inr (sym e))
align-IsAligned front tail false e = elim (Bool-cases (space_at (get_elem? tail 0))) [
  | inl b ↦ rw b (blank_start front tail b)
  | inr b ↦ rw b (found-IsAligned front tail (after_space tail) refl)
]

ends_blank-take :
    (n : ℕ) (text : Text)
    → n < length text
    → space_at (get_elem? text n) ≡ ends_blank (take (suc n) text)
ends_blank-take n [] h = absurd (omega arith)
ends_blank-take zero (c ∷ s) h = refl
ends_blank-take (suc n) (c ∷ []) h = absurd (omega arith)
ends_blank-take (suc n) (c ∷ d ∷ s) h = ends_blank-take n (d ∷ s) (omega arith)

cut_point :
    (cut : ℕ) (text : Text)
    → 0 < cut
    → cut ≤ length text
    → space_at (get_elem? text (cut - 1)) ≡ ends_blank (take cut text)
cut_point zero text pos h = absurd (omega arith)
cut_point (suc n) text pos h =
    let e : suc n - 1 ≡ n = omega arith in rw e (ends_blank-take n text (omega arith))

-- The tail of a text that the next chunk repeats stands in the text: only white space follows it
-- there, and it is empty, or it opens the text, or white space stands directly in front of it.
pub overlap_tail-IsAligned :
    (text : Text) (overlap : ℕ) → IsAligned text (overlap_tail text overlap)
unfolding overlap_tail
overlap_tail-IsAligned text overlap = elim (Bool-cases (overlap == 0 || is_empty text)) [
  | inl e ↦ rw e (nothing-IsAligned text)
  | inr e ↦ rw e (elim (Bool-cases (leb (length text) overlap)) [
    | inl short ↦ rw short ([], [], sym (append-nil text), tt, inr (inl refl))
    | inr long ↦
        let cut = length text - overlap in
        rw long (
          subst (λ t. IsAligned t (align (space_at (get_elem? text (cut - 1))) (drop cut text)))
            (take-append-drop cut text)
            (align-IsAligned (take cut text) (drop cut text) _
              (cut_point cut text (ground arith) (omega arith))))
  ])
]
