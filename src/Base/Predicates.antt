-- ===== src/Base/Predicates.antt =====
-- Predicates over lists by recursion, which the tactics read and build.
use Prim.Native.Nat.{ℕ, zero, suc}
use mathlib.Core.Path.{◌≡◌, refl, sym, subst}
use mathlib.Core.Bool.{Bool}
use mathlib.Core.Logic.{◌⊎◌, inl, inr}
use mathlib.Core.List.{List, [], ◌∷◌, ◌++◌}
use sovereign_rag.Base.Lists.{take, select}
use sovereign_rag.Base.Tests.{Bool-cases}

module _ {ℓ κ} {A : Type ℓ} where
  abbrev pub Every : (A → Type κ) → List A → Type κ
  Every P [] = Unit
  Every P (x ∷ xs) = P x × Every P xs

-- membership by recursion
abbrev pub IsIn : {A : Type 0} → A → List A → Type 0
IsIn a [] = ⊥
IsIn a (x ∷ xs) = (a ≡ x) ⊎ IsIn a xs

module _ {ℓ κ} {A : Type ℓ} (P : A → Type κ) where
  pub Every-append : (xs ys : List A) → Every P xs → Every P ys → Every P (xs ++ ys)
  Every-append [] ys hx hy = hy
  Every-append (x ∷ xs) ys hx hy = (hx.0, Every-append xs ys hx.1 hy)

  pub Every-take : (n : ℕ) (xs : List A) → Every P xs → Every P (take n xs)
  Every-take zero xs h = tt
  Every-take (suc n) [] h = tt
  Every-take (suc n) (x ∷ xs) h = (h.0, Every-take n xs h.1)

  pub Every-select : (p : A → Bool) (xs : List A) → Every P xs → Every P (select p xs)
  Every-select p [] h = tt
  Every-select p (x ∷ xs) h = elim (Bool-cases (p x)) [
    | inl e ↦ rw e (h.0, Every-select p xs h.1)
    | inr e ↦ rw e (Every-select p xs h.1)
  ]

  pub Every-weaken :
      (Q : A → Type κ) → ((a : A) → P a → Q a) → (xs : List A) → Every P xs → Every Q xs
  Every-weaken Q f [] h = tt
  Every-weaken Q f (x ∷ xs) h = (f x h.0, Every-weaken Q f xs h.1)

module _ {A : Type 0} where
  pub Every-IsIn : (P : A → Type 0) (a : A) (xs : List A) → Every P xs → IsIn a xs → P a
  Every-IsIn P a [] h i = absurd i
  Every-IsIn P a (x ∷ xs) h (inl e) = subst P (sym e) h.0
  Every-IsIn P a (x ∷ xs) h (inr i) = Every-IsIn P a xs h.1 i

  -- what all members have
  pub Every-of : (P : A → Type 0) (xs : List A) → ((a : A) → IsIn a xs → P a) → Every P xs
  Every-of P [] f = tt
  Every-of P (x ∷ xs) f = (f x (inl refl), Every-of P xs (λ a i. f a (inr i)))

  pub IsIn-append_left : (a : A) (xs ys : List A) → IsIn a xs → IsIn a (xs ++ ys)
  IsIn-append_left a [] ys i = absurd i
  IsIn-append_left a (x ∷ xs) ys (inl e) = inl e
  IsIn-append_left a (x ∷ xs) ys (inr i) = inr (IsIn-append_left a xs ys i)

  pub IsIn-append_right : (a : A) (xs ys : List A) → IsIn a ys → IsIn a (xs ++ ys)
  IsIn-append_right a [] ys i = i
  IsIn-append_right a (x ∷ xs) ys i = inr (IsIn-append_right a xs ys i)
