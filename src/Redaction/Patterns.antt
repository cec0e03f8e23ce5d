-- ===== src/Redaction/Patterns.antt =====
-- Regular expressions as `re` reads them: a pattern gives the places where it may end, in the order
-- in which a greedy backtracking search tries them. `sub` replaces the leftmost matches. The patterns
-- are those of backend/src/sovereign_rag/redaction.py.
use sovereign_rag.Base.{
  ℕ, zero, suc, Option, none, some, List, [], ◌∷◌, ◌++◌, Bool, false, not, ◌&&◌, ◌||◌,
  if◌then◌else◌, length,
}
use sovereign_rag.Text.{Text}

-- a place in a text: the character before it, and what follows it
abbrev pub Spot : Type 0
Spot = Option ℕ × Text

pub data Regex : Type 0 where
  empty : Regex
  -- `[...]`
  one : (ℕ → Bool) → Regex
  -- `[...]*`
  many : (ℕ → Bool) → Regex
  -- `\b` for these word characters
  boundary : (ℕ → Bool) → Regex
  -- `(?<![...])`
  not_behind : (ℕ → Bool) → Regex
  seq : Regex → Regex → Regex
  alt : Regex → Regex → Regex
  -- `(?:...){0,n}`
  upto : ℕ → Regex → Regex

abbrev pub holds_of : (ℕ → Bool) → Option ℕ → Bool
holds_of p none = false
holds_of p (some c) = p c

abbrev pub first : Text → Option ℕ
first [] = none
first (c ∷ s) = some c

abbrev pub at_boundary : (ℕ → Bool) → Spot → Bool
at_boundary p (b, s) =
    (holds_of p b && not (holds_of p (first s))) || (not (holds_of p b) && holds_of p (first s))

unfoldable pub concat_map : {A B : Type 0} → (A → List B) → List A → List B
concat_map f [] = []
concat_map f (x ∷ xs) = f x ++ concat_map f xs

unfoldable pub many_from : (ℕ → Bool) → Option ℕ → Text → List Spot
many_from p b [] = (b, []) ∷ []
many_from p b (c ∷ s) =
    let further = many_from p (some c) s in
    if p c then further ++ (b, c ∷ s) ∷ [] else (b, c ∷ s) ∷ []

unfoldable pub up_to : ℕ → (Spot → List Spot) → Spot → List Spot
unfolding concat_map
up_to zero f a = a ∷ []
up_to (suc n) f a = concat_map (up_to n f) (f a) ++ a ∷ []

unfoldable pub one_from : (ℕ → Bool) → Option ℕ → Text → List Spot
one_from p b [] = []
one_from p b (c ∷ s) = if p c then (some c, s) ∷ [] else []

unfoldable pub matches : Regex → Spot → List Spot
unfolding one_from many_from up_to concat_map
matches empty a = a ∷ []
matches (one p) a = one_from p a.0 a.1
matches (many p) a = many_from p a.0 a.1
matches (boundary p) a = if at_boundary p a then a ∷ [] else []
matches (not_behind p) a = if holds_of p a.0 then [] else a ∷ []
matches (seq r q) a = concat_map (matches q) (matches r a)
matches (alt r q) a = matches r a ++ matches q a
matches (upto n r) a = up_to n (matches r) a

-- `[...]+`
abbrev pub plus : (ℕ → Bool) → Regex
plus p = seq (one p) (many p)

-- `...{n}`
abbrev pub times : ℕ → Regex → Regex
times zero r = empty
times (suc zero) r = r
times (suc (suc n)) r = seq r (times (suc n) r)

-- `...{m,m+n}`
abbrev pub between : ℕ → ℕ → Regex → Regex
between m n r = seq (times m r) (upto n r)

-- `pattern.sub(mask, text)` from a place on, for a pattern that matches no empty text: `n` rounds
unfoldable pub sub_from : ℕ → Regex → Text → Spot → Text
unfolding matches
sub_from zero r mask a = []
sub_from (suc n) r mask (b, []) = []
sub_from (suc n) r mask (b, c ∷ s) = elim (matches r (b, c ∷ s)) [
  | [] ↦ c ∷ sub_from n r mask (some c, s)
  | z ∷ later ↦ mask ++ sub_from n r mask z
]

unfoldable pub sub : Regex → Text → Text → Text
unfolding sub_from
sub r mask text = sub_from (length text) r mask (none, text)
