-- ===== src/Reranking/Tests.antt =====
-- Reranking three hits whose logits are scores already.
use sovereign_rag.Base.{length, ℕ, ◌≡◌, refl, none, List, [], ◌∷◌, ltb, arith, map}
use sovereign_rag.Text.{Text, codes}
use sovereign_rag.Effects.{Fault, value_error, ok, pure, Ends, Ends-pure, ◌>>=◌}
use sovereign_rag.Store.{SearchHit}
use sovereign_rag.Deep.Contract.{IsNarrowed}
use sovereign_rag.Reranking.{LocalReranker, rerank_local}
use sovereign_rag.Reranking.Ranked.{IsOrder, IsRanked, rerank_local-IsNarrowed}

abbrev lengths : LocalReranker ℕ ℕ ℕ
lengths = record {
  scores = λ pairs. pure (map {B = ℕ} (λ p. length p.1) pairs);
  sigmoid = λ l. ok l;
  below = ltb;
}

abbrev hit : ℕ → Text → SearchHit ℕ
hit n content = record {
  chunk_id = n;
  document_id = 1;
  filename = [];
  section = none;
  page = none;
  content = content;
  score = 0;
  vec_rank = none;
  fts_rank = none;
}

abbrev three_hits : List (SearchHit ℕ)
three_hits = hit 1 (codes "ab") ∷ hit 2 (codes "abc") ∷ hit 3 (codes "a") ∷ []

-- two lists of different lengths
abbrev Mismatch : Fault → Type 0
Mismatch e = e ≡ value_error

ltb-IsOrder : IsOrder ltb
ltb-IsOrder = record { asym = λ a b e. ground arith; trans = λ a b c e f. ground arith }

rerank_local-IsNarrowed_example :
    Ends
      (λ kept. IsNarrowed 2 three_hits kept × IsRanked lengths kept)
      Mismatch
      (rerank_local lengths (codes "q") three_hits 2)
rerank_local-IsNarrowed_example =
    rerank_local-IsNarrowed lengths Mismatch refl (λ l. tt) ltb-IsOrder (λ pairs. Ends-pure _ tt)
      (codes "q") three_hits 2

reranked :
    (rerank_local lengths (codes "q") three_hits 2 0).0
    ≡ ok (
        record (hit 2 (codes "abc")) { score = 3 } ∷ record (hit 1 (codes "ab")) { score = 2 } ∷ [])
unfolding rerank_local ◌>>=◌
reranked = refl
