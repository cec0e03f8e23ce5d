-- ===== src/Embeddings/Batches.antt =====
-- The batches of AzureEmbedding keep the order and the number of the texts
-- (backend/src/sovereign_rag/embeddings/azure.py).
use sovereign_rag.Base.{
  Bool-cases, inl, inr, subst, ◌==◌, ==_iff, ℕ, zero, suc, ◌+◌, ◌-◌, ◌≤◌, ◌≡◌, refl, ap, ap₂, ◌∙◌,
  some, List, [], ◌∷◌, ◌++◌, Bool, false, ltb, length, take, drop, map, get_elem?, Every,
  Every-weaken, arith, take-append-drop, length-drop, length-take, sort_by, IsOrdered, IsKeyed,
  IsTotal, Every-sort_by, sort_by-IsOrdered, sort_by-IsKeyed, length-sort_by,
}
use sovereign_rag.Text.{Text}
use sovereign_rag.Effects.{◌>>=◌, ok}
use sovereign_rag.Embeddings.{
  Item, items, AzureEmbedding, batch_size, in_order, embedded, request, embed_rounds,
  azure_embed_documents,
}

module _ {Vector : Type 0} (vec : Text → Vector) where
  -- the item is the vector of the text at its index, counted from `from`
  abbrev pub IsPlaced : ℕ → List Text → Item Vector → Type 0
  IsPlaced from batch i =
      (from ≤ i.index)
      × ((t : Text) × ((get_elem? batch (i.index - from) ≡ some t) × (i.embedding ≡ vec t)))

  -- one item for each text, under its index, in any order
  pub record IsAnswer (batch : List Text) (xs : List (Item Vector)) : Type 0 where
    pub counted : length xs ≡ length batch
    pub keyed : IsKeyed (λ i. i.index) xs
    pub placed : Every (IsPlaced 0 batch) xs

  abbrev below : Item Vector → Item Vector → Bool
  below a b = ltb b.index a.index

  below-IsTotal : IsTotal below
  below-IsTotal = record { asym = λ a b h. ground arith; trans = λ a b c h k. ground arith }

  within :
      (k : ℕ) (batch : List Text) (t : Text) → get_elem? batch k ≡ some t → suc k ≤ length batch
  within k [] t h = absurd (cc h)
  within zero (b ∷ batch) t h = omega arith
  within (suc k) (b ∷ batch) t h = omega (arith, within k batch t h)

  -- after the first of an ordered list come only greater indices
  above :
      (x : Item Vector) (xs : List (Item Vector))
      → Every (λ y. below x y ≡ false) xs
      → Every (λ y. y.index ≡ x.index → ⊥) xs
      → Every (λ y. suc x.index ≤ y.index) xs
  above x [] o k = tt
  above x (y ∷ xs) (o, os) (k, ks) =
      let no_less : x.index ≤ y.index = ground arith in
      (
        elim (Bool-cases (y.index == x.index)) [
          | inl e ↦ absurd (k ((==_iff y.index x.index).0 e))
          | inr e ↦ ground arith
        ],
        above x xs os ks,
      )

  narrow :
      (from to : ℕ) (x : Item Vector) (ys : List (Item Vector))
      → Every (λ y. suc x.index ≤ y.index) ys
      → Every (λ i. (from ≤ i.index) × (suc i.index ≤ to)) ys
      → Every (λ i. (suc x.index ≤ i.index) × (suc i.index ≤ to)) ys
  narrow from to x [] g r = tt
  narrow from to x (y ∷ ys) (g, gs) (r, rs) = ((g, r.1), narrow from to x ys gs rs)

  -- so many indices fit between two numbers
  room :
      (xs : List (Item Vector)) (from to : ℕ)
      → from ≤ to
      → IsOrdered below xs
      → IsKeyed (λ i. i.index) xs
      → Every (λ i. (from ≤ i.index) × (suc i.index ≤ to)) xs
      → from + length xs ≤ to
  room [] from to h o k r = omega arith
  room (x ∷ xs) from to h (o, os) (k, ks) ((a, b), rs) =
      let later = narrow from to x xs (above x xs o k) rs in
      omega (arith, room xs (suc x.index) to b os ks later)

  fits :
      (from : ℕ) (batch : List Text) (i : Item Vector)
      → IsPlaced from batch i
      → (from ≤ i.index) × (suc i.index ≤ from + length batch)
  fits from batch i (h, (t, (e, v))) = (h, omega (arith, within (i.index - from) batch t e))

  step :
      (from : ℕ) (b : Text) (batch : List Text) (x : Item Vector) (xs : List (Item Vector))
      → x.index ≡ from
      → Every (λ y. suc x.index ≤ y.index) xs
      → Every (IsPlaced from (b ∷ batch)) xs
      → Every (IsPlaced (suc from) batch) xs
  step from b batch x [] e g h = tt
  step from b batch x (y ∷ xs) e (g, gs) ((p, (t, (q, v))), hs) =
      let gap : y.index - from ≡ suc (y.index - suc from) = omega arith in
      (
        (omega arith, (t, (subst (λ k. get_elem? (b ∷ batch) k ≡ some t) gap q, v))),
        step from b batch x xs e gs hs,
      )

  -- an ordered answer is the vectors of the texts
  ordered_lem :
      (batch : List Text) (from : ℕ) (xs : List (Item Vector))
      → length xs ≡ length batch
      → IsOrdered below xs
      → IsKeyed (λ i. i.index) xs
      → Every (IsPlaced from batch) xs
      → map (λ i. i.embedding) xs ≡ map vec batch
  ordered_lem [] from [] n o k h = refl
  ordered_lem [] from (x ∷ xs) n o k h = absurd (omega arith)
  ordered_lem (b ∷ batch) from [] n o k h = absurd (omega arith)
  ordered_lem (b ∷ batch) from (x ∷ xs) n (o, os) (k, ks) (h, hs) =
      let bounds = fits from (b ∷ batch) x h in
      let greater = above x xs o k in
      let tight = room xs (suc x.index) (from + length (b ∷ batch)) bounds.1 os ks (
        narrow from (from + length (b ∷ batch)) x xs greater
          (Every-weaken _ _ (fits from (b ∷ batch)) xs hs)) in
      let first : x.index ≡ from = omega (arith, tight, bounds.0) in
      ap₂ (λ v vs. v ∷ vs) (head first h)
        (ordered_lem batch (suc from) xs (omega arith) os ks
          (step from b batch x xs first greater hs))
    where
      head : x.index ≡ from → IsPlaced from (b ∷ batch) x → x.embedding ≡ vec b
      head e (p, (t, (q, v))) =
          let zeroth : x.index - from ≡ 0 = omega arith in
          let same = subst (λ j. get_elem? (b ∷ batch) j ≡ some t) zeroth q in v ∙ ap vec (cc same)

  embedded_lem :
      (batch : List Text) (xs : List (Item Vector))
      → IsAnswer batch xs
      → embedded (items xs) ≡ ok (map vec batch)
  unfolding embedded in_order
  embedded_lem batch xs a = ap ok (
      ordered_lem batch 0 (sort_by below xs) (length-sort_by below xs ∙ a.counted)
        (sort_by-IsOrdered below below-IsTotal xs) (sort_by-IsKeyed (λ i. i.index) below xs a.keyed)
        (Every-sort_by below (IsPlaced 0 batch) xs a.placed))

-- the service answers every batch of at most 32 texts, in any world, with the vectors of the texts
pub record Answers {W Vector : Type 0} (vec : Text → Vector) (create : AzureEmbedding W Vector)
    : Type 0 where
  pub response : List Text → W → List (Item Vector)
  pub sent :
      (batch : List Text) (w : W)
      → length batch ≤ batch_size
      → (create batch w).0 ≡ items (response batch w)
  pub right :
      (batch : List Text) (w : W)
      → length batch ≤ batch_size
      → IsAnswer vec batch (response batch w)

module _ {W Vector : Type 0} (vec : Text → Vector) (create : AzureEmbedding W Vector)
    (h : Answers vec create) where
  request_lem :
      (batch : List Text) (w : W)
      → length batch ≤ batch_size
      → (request create batch w).0 ≡ ok (map vec batch)
  unfolding request
  request_lem batch w n =
      ap embedded (h.sent batch w n)
      ∙ embedded_lem vec batch (h.response batch w) (h.right batch w n)

  map_append : (xs ys : List Text) → map vec xs ++ map vec ys ≡ map vec (xs ++ ys)
  map_append [] ys = refl
  map_append (x ∷ xs) ys = ap (λ vs. vec x ∷ vs) (map_append xs ys)

  rounds_lem :
      (n : ℕ) (texts : List Text) (w : W)
      → length texts ≤ n
      → (embed_rounds n create texts w).0 ≡ ok (map vec texts)
  unfolding embed_rounds ◌>>=◌
  rounds_lem zero [] w e = refl
  rounds_lem zero (t ∷ texts) w e = absurd (omega arith)
  rounds_lem (suc n) [] w e = refl
  rounds_lem (suc n) (t ∷ texts) w e =
      let batch = take batch_size (t ∷ texts) in
      let more = drop batch_size (t ∷ texts) in
      let small : length batch ≤ batch_size = omega (arith, length-take batch_size (t ∷ texts)) in
      let w' = (request create batch w).1 in
      let less : length more ≤ n = omega (arith, length-drop batch_size (t ∷ texts)) in
      rw (request_lem batch w small, rounds_lem n more w' less)
        (ap ok (map_append batch more ∙ ap (map vec) (take-append-drop batch_size (t ∷ texts))))

-- Let the service answer every batch of at most 32 texts, in any world, with one item for each
-- text, under its index, in any order of the items. Then embedding any number of texts returns,
-- and gives the vectors of the texts, each once and in the order of the texts.
pub azure_embed_documents-each :
    {W Vector : Type 0} (vec : Text → Vector) (create : AzureEmbedding W Vector)
    → Answers vec create
    → (texts : List Text) (w : W) → (azure_embed_documents create texts w).0 ≡ ok (map vec texts)
unfolding azure_embed_documents
azure_embed_documents-each vec create h texts w =
    rounds_lem vec create h (length texts) texts w (omega arith)
