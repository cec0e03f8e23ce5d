-- ===== src/Reranking.antt =====
-- The cross-encoder reranker (`LocalCrossEncoderReranker.rerank` of
-- backend/src/sovereign_rag/reranking/local.py). The model's logits and the sigmoid are parameters.
pub mod Ranked
mod Tests
use sovereign_rag.Base.{ℕ, List, [], ◌∷◌, Bool, map, if◌then◌else◌, take}
use sovereign_rag.Text.{Text}
use sovereign_rag.Effects.{Outcome, ok, raised, value_error, Run, pure, lift, ◌>>=◌}
use sovereign_rag.Faults
use sovereign_rag.Store.{SearchHit}

pub record LocalReranker (W Logit Score : Type 0) : Type 0 where
  -- `_scores`, in a thread
  pub scores : List (Text × Text) → Run W (List Logit)
  -- 1.0 / (1.0 + math.exp(-logit)), where `exp` raises OverflowError far below 0
  pub sigmoid : Logit → Outcome Score
  -- `<` of two scores
  pub below : Score → Score → Bool

module _ {W Logit Score : Type 0} (self : LocalReranker W Logit Score) where
  -- `zip(hits, logits, strict=True)`: lists of two lengths raise ValueError
  unfoldable pub rescore : List (SearchHit Score) → List Logit → Outcome (List (SearchHit Score))
  rescore [] [] = ok []
  rescore (hit ∷ hits) (logit ∷ logits) =
      let rest = rescore hits logits in
      Faults.◌>>=◌ (self.sigmoid logit)
        (λ score. Faults.◌>>=◌ rest (λ rescored. ok (record hit { score = score } ∷ rescored)))
  rescore _ _ = raised value_error

  -- `sort(key=lambda hit: -hit.score)`, which is stable
  unfoldable pub insert : SearchHit Score → List (SearchHit Score) → List (SearchHit Score)
  insert hit [] = hit ∷ []
  insert hit (x ∷ ranked) =
      let rest = insert hit ranked in
      if self.below hit.score x.score then x ∷ rest else hit ∷ x ∷ ranked

  unfoldable pub sort : List (SearchHit Score) → List (SearchHit Score)
  unfolding insert
  sort [] = []
  sort (hit ∷ hits) = insert hit (sort hits)

  unfoldable pub rerank_local : Text → List (SearchHit Score) → ℕ → Run W (List (SearchHit Score))
  unfolding rescore sort
  rerank_local query [] k = pure []
  rerank_local query (h ∷ hits) k = do
    logits ← self.scores (map (λ hit. (query, hit.content)) (h ∷ hits))
    rescored ← lift (rescore (h ∷ hits) logits)
    pure (take k (sort rescored))
