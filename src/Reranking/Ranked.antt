-- ===== src/Reranking/Ranked.antt =====
-- The reranker fills the contract that the deep-search graph relies on, and ranks what it keeps
-- (backend/src/sovereign_rag/reranking/base.py and backend/src/sovereign_rag/reranking/local.py).
use sovereign_rag.Base.{
  ℕ, zero, suc, ◌≡◌, refl, sym, ◌∙◌, subst, inl, inr, List, [], ◌∷◌, arith, Bool, true, false,
  Bool-cases, take, length-take, Every, Every-take, Every-weaken,
}
use sovereign_rag.Text.{Text}
use sovereign_rag.Effects.{
  Fault, value_error, Allowed, Anything, Ends, Ends-pure, Ends-lift, Ends-bind,
}
use sovereign_rag.Faults.{Allowed-bind}
use sovereign_rag.Store.{SearchHit}
use sovereign_rag.Deep.Evidence.{IsAbsent, IsDistinct, take-IsDistinct}
use sovereign_rag.Deep.Contract.{IsNarrowed}
use sovereign_rag.Reranking.{LocalReranker, rescore, insert, sort, rerank_local}

-- `<` of the scores is the strict part of a total order
pub record IsOrder {Score : Type 0} (below : Score → Score → Bool) : Type 0 where
  pub asym : (a b : Score) → below a b ≡ true → below b a ≡ false
  pub trans : (a b c : Score) → below a b ≡ false → below b c ≡ false → below a c ≡ false

module _ {W Logit Score : Type 0} (self : LocalReranker W Logit Score) where
  -- the best score comes first
  abbrev pub IsRanked : List (SearchHit Score) → Type 0
  IsRanked [] = Unit
  IsRanked (h ∷ hits) = Every (λ x. self.below h.score x.score ≡ false) hits × IsRanked hits

  Every-insert :
      (P : SearchHit Score → Type 0) (hit : SearchHit Score) (hits : List (SearchHit Score))
      → P hit
      → Every P hits
      → Every P (insert self hit hits)
  unfolding insert
  Every-insert P hit [] p h = (p, tt)
  Every-insert P hit (x ∷ hits) p h = elim (Bool-cases (self.below hit.score x.score)) [
    | inl e ↦ rw e (h.0, Every-insert P hit hits p h.1)
    | inr e ↦ rw e (p, h)
  ]

  Every-sort :
      (P : SearchHit Score → Type 0) (hits : List (SearchHit Score))
      → Every P hits
      → Every P (sort self hits)
  unfolding sort
  Every-sort P [] h = tt
  Every-sort P (x ∷ hits) h = Every-insert P x (sort self hits) h.0 (Every-sort P hits h.1)

  insert-IsRanked :
      IsOrder self.below
      → (hit : SearchHit Score) (hits : List (SearchHit Score)) → IsRanked hits
      → IsRanked (insert self hit hits)
  unfolding insert
  insert-IsRanked o hit [] r = (tt, tt)
  insert-IsRanked o hit (x ∷ hits) r = elim (Bool-cases (self.below hit.score x.score)) [
    | inl e ↦
        rw e
          (Every-insert _ hit hits (o.asym hit.score x.score e) r.0, insert-IsRanked o hit hits r.1)
    | inr e ↦
        rw e ((e, Every-weaken _ _ (λ y k. o.trans hit.score x.score y.score e k) hits r.0), r)
  ]

  sort-IsRanked : IsOrder self.below → (hits : List (SearchHit Score)) → IsRanked (sort self hits)
  unfolding sort
  sort-IsRanked o [] = tt
  sort-IsRanked o (h ∷ hits) = insert-IsRanked o h (sort self hits) (sort-IsRanked o hits)

  insert-IsDistinct :
      (hit : SearchHit Score) (hits : List (SearchHit Score))
      → IsAbsent hit.chunk_id hits
      → IsDistinct hits
      → IsDistinct (insert self hit hits)
  unfolding insert
  insert-IsDistinct hit [] a d = (tt, tt)
  insert-IsDistinct hit (x ∷ hits) a d = elim (Bool-cases (self.below hit.score x.score)) [
    | inl e ↦
        rw e (Every-insert _ hit hits (λ q. a.0 (sym q)) d.0, insert-IsDistinct hit hits a.1 d.1)
    | inr e ↦ rw e (a, d)
  ]

  sort-IsDistinct : (hits : List (SearchHit Score)) → IsDistinct hits → IsDistinct (sort self hits)
  unfolding sort
  sort-IsDistinct [] d = tt
  sort-IsDistinct (h ∷ hits) d =
      insert-IsDistinct h (sort self hits) (Every-sort _ hits d.0) (sort-IsDistinct hits d.1)

  take-IsRanked : (k : ℕ) (hits : List (SearchHit Score)) → IsRanked hits → IsRanked (take k hits)
  take-IsRanked zero hits r = tt
  take-IsRanked (suc k) [] r = tt
  take-IsRanked (suc k) (h ∷ hits) r = (Every-take _ k hits r.0, take-IsRanked k hits r.1)

  -- the same chunks in the same order
  abbrev SameChunks : List (SearchHit Score) → List (SearchHit Score) → Type 0
  SameChunks [] [] = Unit
  SameChunks (h ∷ hits) (x ∷ xs) = (x.chunk_id ≡ h.chunk_id) × SameChunks hits xs
  SameChunks _ _ = ⊥

  SameChunks-IsAbsent :
      (id : ℕ) (hits xs : List (SearchHit Score))
      → SameChunks hits xs
      → IsAbsent id hits
      → IsAbsent id xs
  SameChunks-IsAbsent id [] [] s a = tt
  SameChunks-IsAbsent id [] (x ∷ xs) s a = absurd s
  SameChunks-IsAbsent id (h ∷ hits) [] s a = absurd s
  SameChunks-IsAbsent id (h ∷ hits) (x ∷ xs) s a =
      ((λ q. a.0 (sym s.0 ∙ q)), SameChunks-IsAbsent id hits xs s.1 a.1)

  SameChunks-IsDistinct :
      (hits xs : List (SearchHit Score)) → SameChunks hits xs → IsDistinct hits → IsDistinct xs
  SameChunks-IsDistinct [] [] s d = tt
  SameChunks-IsDistinct [] (x ∷ xs) s d = absurd s
  SameChunks-IsDistinct (h ∷ hits) [] s d = absurd s
  SameChunks-IsDistinct (h ∷ hits) (x ∷ xs) s d = (
    subst (λ i. IsAbsent i xs) (sym s.0) (SameChunks-IsAbsent h.chunk_id hits xs s.1 d.0),
    SameChunks-IsDistinct hits xs s.1 d.1,
  )

  module _ (E : Fault → Type 0) (v : E value_error)
      (squashes : (l : Logit) → Allowed Anything E (self.sigmoid l)) where
    rescore-Allowed :
        (hits : List (SearchHit Score)) (logits : List Logit)
        → Allowed (SameChunks hits) E (rescore self hits logits)
    unfolding rescore
    rescore-Allowed [] [] = tt
    rescore-Allowed [] (l ∷ logits) = v
    rescore-Allowed (h ∷ hits) [] = v
    rescore-Allowed (h ∷ hits) (l ∷ logits) =
        Allowed-bind Anything (SameChunks (h ∷ hits)) E (self.sigmoid l) _ (squashes l) λ score _.
          Allowed-bind (SameChunks hits) (SameChunks (h ∷ hits)) E (rescore self hits logits) _
            (rescore-Allowed hits logits) λ rescored s. (refl, s)

    -- Let the scores be totally ordered, and let E be any set of faults that contains a
    -- ValueError and what the model and the sigmoid may raise. Reranking raises a fault of E or
    -- returns; then it fills the contract of a reranker that the deep-search graph relies on: at
    -- most k hits, and no chunk twice if none was twice before. The kept hits stand in the order
    -- of their scores, the best first.
    pub rerank_local-IsNarrowed :
        IsOrder self.below
        → ((pairs : List (Text × Text)) → Ends Anything E (self.scores pairs))
        → (query : Text) (hits : List (SearchHit Score)) (k : ℕ)
        → Ends (λ kept. IsNarrowed k hits kept × IsRanked kept) E (rerank_local self query hits k)
    unfolding rerank_local
    rerank_local-IsNarrowed o s query [] k =
        Ends-pure [] (record { bounded = omega arith; distinct = λ d. tt }, tt)
    rerank_local-IsNarrowed o s query (h ∷ hits) k = Ends-bind _ _ (s _) λ logits _.
        Ends-bind _ _ (Ends-lift _ (rescore-Allowed (h ∷ hits) logits)) λ rescored same.
          Ends-pure _ (
            record {
              bounded = omega (arith, length-take k (sort self rescored));
              distinct = λ d.
                  take-IsDistinct k _
                    (sort-IsDistinct rescored (SameChunks-IsDistinct (h ∷ hits) rescored same d));
            },
            take-IsRanked k _ (sort-IsRanked o rescored),
          )
