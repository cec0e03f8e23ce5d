-- ===== src/Redaction/Matches.antt =====
-- What the patterns of redaction.py match, said without a search, and that the search finds exactly
-- that (backend/src/sovereign_rag/redaction.py).
use sovereign_rag.Base.{
  min, ℕ, zero, suc, ◌+◌, ◌≤◌, ◌≡◌, refl, ◌⊎◌, inl, inr, Option, some, List, [], ◌∷◌, ◌++◌, Bool,
  true, false, Bool-cases, if◌then◌else◌, length, arith, IsIn, IsIn-append_left, IsIn-append_right,
  subst,
}
use sovereign_rag.Text.{Text}
use sovereign_rag.Redaction.Patterns.{
  Spot, Regex, empty, one, many, boundary, not_behind, seq, alt, upto, holds_of, at_boundary,
  concat_map, many_from, up_to, one_from, matches,
}

abbrev pub IsOne : (ℕ → Bool) → Option ℕ → Text → Spot → Type 0
IsOne p b [] z = ⊥
IsOne p b (c ∷ s) z = (p c ≡ true) × (z ≡ (some c, s))

abbrev pub IsMany : (ℕ → Bool) → Option ℕ → Text → Spot → Type 0
IsMany p b [] z = z ≡ (b, [])
IsMany p b (c ∷ s) z = ((p c ≡ true) × IsMany p (some c) s z) ⊎ (z ≡ (b, c ∷ s))

abbrev pub IsUpto : ℕ → (Spot → Spot → Type 0) → Spot → Spot → Type 0
IsUpto zero M a z = z ≡ a
IsUpto (suc n) M a z = ((m : Spot) × (M a m × IsUpto n M m z)) ⊎ (z ≡ a)

-- the pattern matches from `a` to `z`
abbrev pub IsMatch : Regex → Spot → Spot → Type 0
IsMatch empty a z = z ≡ a
IsMatch (one p) a z = IsOne p a.0 a.1 z
IsMatch (many p) a z = IsMany p a.0 a.1 z
IsMatch (boundary p) a z = (at_boundary p a ≡ true) × (z ≡ a)
IsMatch (not_behind p) a z = (holds_of p a.0 ≡ false) × (z ≡ a)
IsMatch (seq r q) a z = (m : Spot) × (IsMatch r a m × IsMatch q m z)
IsMatch (alt r q) a z = IsMatch r a z ⊎ IsMatch q a z
IsMatch (upto n r) a z = IsUpto n (IsMatch r) a z

module _ {A : Type 0} where
  pub IsIn-append : (a : A) (xs ys : List A) → IsIn a (xs ++ ys) → IsIn a xs ⊎ IsIn a ys
  IsIn-append a [] ys i = inr i
  IsIn-append a (x ∷ xs) ys (inl e) = inl (inl e)
  IsIn-append a (x ∷ xs) ys (inr i) = elim (IsIn-append a xs ys i) [
    | inl k ↦ inl (inr k)
    | inr k ↦ inr k
  ]

module _ (f : Spot → List Spot) where
  from_concat_map :
      (xs : List Spot) (z : Spot)
      → IsIn z (concat_map f xs)
      → (m : Spot) × (IsIn m xs × IsIn z (f m))
  unfolding concat_map
  from_concat_map [] z i = absurd i
  from_concat_map (x ∷ xs) z i = elim (IsIn-append z (f x) (concat_map f xs) i) [
    | inl k ↦ (x, (inl refl, k))
    | inr k ↦ let (m, (j, h)) = from_concat_map xs z k in (m, (inr j, h))
  ]

  into_concat_map :
      (xs : List Spot) (m z : Spot) → IsIn m xs → IsIn z (f m) → IsIn z (concat_map f xs)
  unfolding concat_map
  into_concat_map [] m z i h = absurd i
  into_concat_map (x ∷ xs) m z (inl e) h =
      IsIn-append_left z (f x) (concat_map f xs) (subst (λ y. IsIn z (f y)) e h)
  into_concat_map (x ∷ xs) m z (inr i) h =
      IsIn-append_right z (f x) (concat_map f xs) (into_concat_map xs m z i h)

many_from-IsMany :
    (p : ℕ → Bool) (b : Option ℕ) (s : Text) (z : Spot) → IsIn z (many_from p b s) → IsMany p b s z
unfolding many_from
many_from-IsMany p b [] z (inl e) = e
many_from-IsMany p b [] z (inr i) = absurd i
many_from-IsMany p b (c ∷ s) z i = elim (Bool-cases (p c)) [
  | inl e ↦
      elim (IsIn-append z (many_from p (some c) s) ((b, c ∷ s) ∷ []) (
        subst
          (λ t. IsIn z (if t then many_from p (some c) s ++ (b, c ∷ s) ∷ [] else (b, c ∷ s) ∷ [])) e
          i)) [
            | inl k ↦ inl (e, many_from-IsMany p (some c) s z k)
            | inr (inl k) ↦ inr k
            | inr (inr k) ↦ absurd k
          ]
  | inr e ↦
      elim (subst
        (λ t. IsIn z (if t then many_from p (some c) s ++ (b, c ∷ s) ∷ [] else (b, c ∷ s) ∷ [])) e
        i) [ inl k ↦ inr k | inr k ↦ absurd k ]
]

IsMany-many_from :
    (p : ℕ → Bool) (b : Option ℕ) (s : Text) (z : Spot) → IsMany p b s z → IsIn z (many_from p b s)
unfolding many_from
IsMany-many_from p b [] z e = inl e
IsMany-many_from p b (c ∷ s) z (inl (e, h)) =
    rw e (IsIn-append_left z (many_from p (some c) s) _ (IsMany-many_from p (some c) s z h))
IsMany-many_from p b (c ∷ s) z (inr k) = elim (Bool-cases (p c)) [
  | inl e ↦ rw e (IsIn-append_right z (many_from p (some c) s) _ (inl k))
  | inr e ↦ rw e (inl k)
]

module _ (f : Spot → List Spot) (M : Spot → Spot → Type 0) where
  up_to-IsUpto :
      ((a z : Spot) → IsIn z (f a) → M a z)
      → (n : ℕ) (a z : Spot) → IsIn z (up_to n f a)
      → IsUpto n M a z
  unfolding up_to
  up_to-IsUpto h zero a z (inl e) = e
  up_to-IsUpto h zero a z (inr i) = absurd i
  up_to-IsUpto h (suc n) a z i = elim (IsIn-append z (concat_map (up_to n f) (f a)) (a ∷ []) i) [
    | inl k ↦
        let (m, (j, l)) = from_concat_map (up_to n f) (f a) z k in
        inl (m, (h a m j, up_to-IsUpto h n m z l))
    | inr (inl k) ↦ inr k
    | inr (inr k) ↦ absurd k
  ]

  IsUpto-up_to :
      ((a z : Spot) → M a z → IsIn z (f a))
      → (n : ℕ) (a z : Spot) → IsUpto n M a z
      → IsIn z (up_to n f a)
  unfolding up_to
  IsUpto-up_to h zero a z e = inl e
  IsUpto-up_to h (suc n) a z (inl (m, (j, l))) =
      IsIn-append_left z (concat_map (up_to n f) (f a)) (a ∷ [])
        (into_concat_map (up_to n f) (f a) m z (h a m j) (IsUpto-up_to h n m z l))
  IsUpto-up_to h (suc n) a z (inr e) =
      IsIn-append_right z (concat_map (up_to n f) (f a)) (a ∷ []) (inl e)

tested_sound : (t : Bool) (a z : Spot) → IsIn z (if t then a ∷ [] else []) → (t ≡ true) × (z ≡ a)
tested_sound true a z (inl e) = (refl, e)
tested_sound true a z (inr i) = absurd i
tested_sound false a z i = absurd i

refused_sound : (t : Bool) (a z : Spot) → IsIn z (if t then [] else a ∷ []) → (t ≡ false) × (z ≡ a)
refused_sound false a z (inl e) = (refl, e)
refused_sound false a z (inr i) = absurd i
refused_sound true a z i = absurd i

-- what the search finds is a match
pub matches-IsMatch : (r : Regex) (a z : Spot) → IsIn z (matches r a) → IsMatch r a z
unfolding matches one_from
matches-IsMatch empty a z (inl e) = e
matches-IsMatch empty a z (inr i) = absurd i
matches-IsMatch (one p) (b, []) z i = absurd i
matches-IsMatch (one p) (b, c ∷ s) z i = tested_sound (p c) (some c, s) z i
matches-IsMatch (many p) a z i = many_from-IsMany p a.0 a.1 z i
matches-IsMatch (boundary p) a z i = tested_sound (at_boundary p a) a z i
matches-IsMatch (not_behind p) a z i = refused_sound (holds_of p a.0) a z i
matches-IsMatch (seq r q) a z i =
    let (m, (j, l)) = from_concat_map (matches q) (matches r a) z i in
    (m, (matches-IsMatch r a m j, matches-IsMatch q m z l))
matches-IsMatch (alt r q) a z i = elim (IsIn-append z (matches r a) (matches q a) i) [
  | inl k ↦ inl (matches-IsMatch r a z k)
  | inr k ↦ inr (matches-IsMatch q a z k)
]
matches-IsMatch (upto n r) a z i = up_to-IsUpto (matches r) (IsMatch r) (matches-IsMatch r) n a z i

-- and it finds every match
pub IsMatch-matches : (r : Regex) (a z : Spot) → IsMatch r a z → IsIn z (matches r a)
unfolding matches one_from
IsMatch-matches empty a z e = inl e
IsMatch-matches (one p) (b, []) z h = absurd h
IsMatch-matches (one p) (b, c ∷ s) z (t, e) = rw t (inl e)
IsMatch-matches (many p) a z h = IsMany-many_from p a.0 a.1 z h
IsMatch-matches (boundary p) a z (t, e) = rw t (inl e)
IsMatch-matches (not_behind p) a z (t, e) = rw t (inl e)
IsMatch-matches (seq r q) a z (m, (j, l)) =
    into_concat_map (matches q) (matches r a) m z (IsMatch-matches r a m j)
      (IsMatch-matches q m z l)
IsMatch-matches (alt r q) a z (inl k) =
    IsIn-append_left z (matches r a) (matches q a) (IsMatch-matches r a z k)
IsMatch-matches (alt r q) a z (inr k) =
    IsIn-append_right z (matches r a) (matches q a) (IsMatch-matches q a z k)
IsMatch-matches (upto n r) a z h = IsUpto-up_to (matches r) (IsMatch r) (IsMatch-matches r) n a z h

-- how many characters every match takes, at least
abbrev pub least : Regex → ℕ
least empty = 0
least (one p) = 1
least (many p) = 0
least (boundary p) = 0
least (not_behind p) = 0
least (seq r q) = least r + least q
least (alt r q) = min (least r) (least q)
least (upto n r) = 0

IsMany-length :
    (p : ℕ → Bool) (b : Option ℕ) (s : Text) (z : Spot) → IsMany p b s z → length z.1 ≤ length s
IsMany-length p b [] z e = rw e (omega arith)
IsMany-length p b (c ∷ s) z (inl (t, h)) = omega (arith, IsMany-length p (some c) s z h)
IsMany-length p b (c ∷ s) z (inr e) = rw e (omega arith)

IsUpto-length :
    (M : Spot → Spot → Type 0)
    → ((a z : Spot) → M a z → length z.1 ≤ length a.1)
    → (n : ℕ) (a z : Spot) → IsUpto n M a z
    → length z.1 ≤ length a.1
IsUpto-length M h zero a z e = rw e (omega arith)
IsUpto-length M h (suc n) a z (inl (m, (j, l))) = omega (arith, h a m j, IsUpto-length M h n m z l)
IsUpto-length M h (suc n) a z (inr e) = rw e (omega arith)

pub IsMatch-least : (r : Regex) (a z : Spot) → IsMatch r a z → length z.1 + least r ≤ length a.1
IsMatch-least empty a z e = rw e (omega arith)
IsMatch-least (one p) (b, []) z h = absurd h
IsMatch-least (one p) (b, c ∷ s) z (t, e) = rw e (omega arith)
IsMatch-least (many p) a z h = omega (arith, IsMany-length p a.0 a.1 z h)
IsMatch-least (boundary p) a z (t, e) = rw e (omega arith)
IsMatch-least (not_behind p) a z (t, e) = rw e (omega arith)
IsMatch-least (seq r q) a z (m, (j, l)) =
    omega (arith, IsMatch-least r a m j, IsMatch-least q m z l)
IsMatch-least (alt r q) a z (inl k) = omega (arith, IsMatch-least r a z k)
IsMatch-least (alt r q) a z (inr k) = omega (arith, IsMatch-least q a z k)
IsMatch-least (upto n r) a z h =
    omega (arith, IsUpto-length (IsMatch r) (λ b y k. omega (arith, IsMatch-least r b y k)) n a z h)
