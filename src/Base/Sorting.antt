-- ===== src/Base/Sorting.antt =====
-- Stable insertion sort by a Boolean order, as `ORDER BY` and `list.sort` order rows.
use Prim.Native.Nat.{ℕ, zero, suc}
use mathlib.Core.Path.{◌≡◌, refl, sym, ap, ◌∙◌}
use mathlib.Core.Logic.{◌⊎◌, inl, inr}
use mathlib.Core.Bool.{Bool, true, false}
use mathlib.Core.List.{List, [], ◌∷◌, ◌++◌}
use sovereign_rag.Base.Tests.{if◌then◌else◌, Bool-cases}
use sovereign_rag.Base.Lists.{length, take, select}
use sovereign_rag.Base.Predicates.{
  Every, Every-weaken, Every-take, Every-select, Every-append, IsIn,
}

-- `below a b` is the strict part of a total order: `a` comes behind `b`
pub record IsTotal {A : Type 0} (below : A → A → Bool) : Type 0 where
  pub asym : (a b : A) → below a b ≡ true → below b a ≡ false
  pub trans : (a b c : A) → below a b ≡ false → below b c ≡ false → below a c ≡ false

module _ {A : Type 0} (below : A → A → Bool) where
  unfoldable pub insert_by : A → List A → List A
  insert_by a [] = a ∷ []
  insert_by a (x ∷ xs) = let rest = insert_by a xs in if below a x then x ∷ rest else a ∷ x ∷ xs

  unfoldable pub sort_by : List A → List A
  unfolding insert_by
  sort_by [] = []
  sort_by (x ∷ xs) = insert_by x (sort_by xs)

  -- nothing stands before what it is below
  abbrev pub IsOrdered : List A → Type 0
  IsOrdered [] = Unit
  IsOrdered (x ∷ xs) = Every (λ y. below x y ≡ false) xs × IsOrdered xs

  pub Every-insert_by :
      (P : A → Type 0) (a : A) (xs : List A) → P a → Every P xs → Every P (insert_by a xs)
  unfolding insert_by
  Every-insert_by P a [] p h = (p, tt)
  Every-insert_by P a (x ∷ xs) p h = elim (Bool-cases (below a x)) [
    | inl e ↦ rw e (h.0, Every-insert_by P a xs p h.1)
    | inr e ↦ rw e (p, h)
  ]

  pub Every-sort_by : (P : A → Type 0) (xs : List A) → Every P xs → Every P (sort_by xs)
  unfolding sort_by
  Every-sort_by P [] h = tt
  Every-sort_by P (x ∷ xs) h = Every-insert_by P x (sort_by xs) h.0 (Every-sort_by P xs h.1)

  insert_by-IsOrdered :
      IsTotal below → (a : A) (xs : List A) → IsOrdered xs → IsOrdered (insert_by a xs)
  unfolding insert_by
  insert_by-IsOrdered o a [] r = (tt, tt)
  insert_by-IsOrdered o a (x ∷ xs) r = elim (Bool-cases (below a x)) [
    | inl e ↦ rw e (Every-insert_by _ a xs (o.asym a x e) r.0, insert_by-IsOrdered o a xs r.1)
    | inr e ↦ rw e ((e, Every-weaken _ _ (λ y k. o.trans a x y e k) xs r.0), r)
  ]

  pub sort_by-IsOrdered : IsTotal below → (xs : List A) → IsOrdered (sort_by xs)
  unfolding sort_by
  sort_by-IsOrdered o [] = tt
  sort_by-IsOrdered o (x ∷ xs) = insert_by-IsOrdered o x (sort_by xs) (sort_by-IsOrdered o xs)

  length-insert_by : (a : A) (xs : List A) → length (insert_by a xs) ≡ suc (length xs)
  unfolding insert_by
  length-insert_by a [] = refl
  length-insert_by a (x ∷ xs) = elim (Bool-cases (below a x)) [
    | inl e ↦ rw e (ap suc (length-insert_by a xs))
    | inr e ↦ rw e refl
  ]

  pub length-sort_by : (xs : List A) → length (sort_by xs) ≡ length xs
  unfolding sort_by
  length-sort_by [] = refl
  length-sort_by (x ∷ xs) = length-insert_by x (sort_by xs) ∙ ap suc (length-sort_by xs)

  pub take-IsOrdered : (n : ℕ) (xs : List A) → IsOrdered xs → IsOrdered (take n xs)
  take-IsOrdered zero xs r = tt
  take-IsOrdered (suc n) [] r = tt
  take-IsOrdered (suc n) (x ∷ xs) r = (Every-take _ n xs r.0, take-IsOrdered n xs r.1)

-- sorting keeps the members
module _ {A : Type 0} (below : A → A → Bool) where
  IsIn-insert_by : (a b : A) (xs : List A) → (a ≡ b) ⊎ IsIn a xs → IsIn a (insert_by below b xs)
  unfolding insert_by
  IsIn-insert_by a b [] (inl e) = inl e
  IsIn-insert_by a b [] (inr i) = absurd i
  IsIn-insert_by a b (x ∷ xs) h = elim (Bool-cases (below b x)) [
    | inl e ↦ rw e (later (IsIn-insert_by a b xs) h)
    | inr e ↦ rw e h
  ]
    where
      later :
          ((a ≡ b) ⊎ IsIn a xs → IsIn a (insert_by below b xs))
          → (a ≡ b) ⊎ IsIn a (x ∷ xs)
          → IsIn a (x ∷ insert_by below b xs)
      later go (inl q) = inr (go (inl q))
      later go (inr (inl q)) = inl q
      later go (inr (inr i)) = inr (go (inr i))

  pub IsIn-sort_by : (a : A) (xs : List A) → IsIn a xs → IsIn a (sort_by below xs)
  unfolding sort_by
  IsIn-sort_by a [] i = absurd i
  IsIn-sort_by a (x ∷ xs) (inl e) = IsIn-insert_by a x (sort_by below xs) (inl e)
  IsIn-sort_by a (x ∷ xs) (inr i) =
      IsIn-insert_by a x (sort_by below xs) (inr (IsIn-sort_by a xs i))

-- no two rows of one key
module _ {A : Type 0} (key : A → ℕ) where
  abbrev pub IsKeyed : List A → Type 0
  IsKeyed [] = Unit
  IsKeyed (x ∷ xs) = Every (λ y. key y ≡ key x → ⊥) xs × IsKeyed xs

  pub take-IsKeyed : (n : ℕ) (xs : List A) → IsKeyed xs → IsKeyed (take n xs)
  take-IsKeyed zero xs r = tt
  take-IsKeyed (suc n) [] r = tt
  take-IsKeyed (suc n) (x ∷ xs) r = (Every-take _ n xs r.0, take-IsKeyed n xs r.1)

  insert_by-IsKeyed :
      (below : A → A → Bool) (a : A) (xs : List A)
      → Every (λ y. key y ≡ key a → ⊥) xs
      → IsKeyed xs
      → IsKeyed (insert_by below a xs)
  unfolding insert_by
  insert_by-IsKeyed below a [] n r = (tt, tt)
  insert_by-IsKeyed below a (x ∷ xs) n r = elim (Bool-cases (below a x)) [
    | inl e ↦
        rw e (
          Every-insert_by below _ a xs (λ q. n.0 (sym q)) r.0,
          insert_by-IsKeyed below a xs n.1 r.1,
        )
    | inr e ↦ rw e (n, r)
  ]

  pub sort_by-IsKeyed :
      (below : A → A → Bool) (xs : List A) → IsKeyed xs → IsKeyed (sort_by below xs)
  unfolding sort_by
  sort_by-IsKeyed below [] r = tt
  sort_by-IsKeyed below (x ∷ xs) r =
      insert_by-IsKeyed below x (sort_by below xs) (Every-sort_by below _ xs r.0)
        (sort_by-IsKeyed below xs r.1)

  pub select-IsKeyed : (p : A → Bool) (xs : List A) → IsKeyed xs → IsKeyed (select p xs)
  select-IsKeyed p [] r = tt
  select-IsKeyed p (x ∷ xs) r = elim (Bool-cases (p x)) [
    | inl e ↦ rw e (Every-select _ p xs r.0, select-IsKeyed p xs r.1)
    | inr e ↦ rw e (select-IsKeyed p xs r.1)
  ]

  pub append-IsKeyed :
      (xs ys : List A)
      → IsKeyed xs
      → IsKeyed ys
      → Every (λ x. Every (λ y. key y ≡ key x → ⊥) ys) xs
      → IsKeyed (xs ++ ys)
  append-IsKeyed [] ys r s h = s
  append-IsKeyed (x ∷ xs) ys r s h = (Every-append _ xs ys r.0 h.0, append-IsKeyed xs ys r.1 s h.1)
