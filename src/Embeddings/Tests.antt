-- ===== src/Embeddings/Tests.antt =====
-- The prefixes of two models, and a service that embeds a text as its length.
use sovereign_rag.Base.{
  ℕ, suc, ◌-◌, ◌≡◌, refl, sym, subst, some, List, [], ◌∷◌, length, get_elem?, Every, Every-weaken,
  IsKeyed, arith,
}
use sovereign_rag.Text.{Text, codes}
use sovereign_rag.Effects.{ok}
use sovereign_rag.Embeddings.{
  starts, contains, prefixes_in, prefixes_for, Item, items, AzureEmbedding, azure_embed_documents,
}
use sovereign_rag.Embeddings.Batches.{IsPlaced, Answers, azure_embed_documents-each}

two_models :
    (prefixes_for (codes "intfloat/e5-base") ≡ (codes "query: ", codes "passage: "))
    × (prefixes_for (codes "BAAI/bge-m3") ≡ ([], []))
unfolding prefixes_for prefixes_in contains starts
two_models = (refl, refl)

numbered : ℕ → List Text → List (Item ℕ)
numbered k [] = []
numbered k (t ∷ texts) = record { index = k; embedding = length t } ∷ numbered (suc k) texts

placed_lem : (k : ℕ) (texts : List Text) → Every (IsPlaced length k texts) (numbered k texts)
unfolding numbered
placed_lem k [] = tt
placed_lem k (t ∷ texts) =
    let none_left : k - k ≡ 0 = omega arith in
    (
      (
        omega arith,
        (t, (subst (λ j. get_elem? (t ∷ texts) j ≡ some t) (sym none_left) refl, refl)),
      ),
      Every-weaken (IsPlaced length (suc k) texts) (IsPlaced length k (t ∷ texts)) further
          (numbered (suc k) texts) (placed_lem (suc k) texts),
    )
  where
    further : (i : Item ℕ) → IsPlaced length (suc k) texts i → IsPlaced length k (t ∷ texts) i
    further i (p, (s, (q, v))) =
        let gap : i.index - k ≡ suc (i.index - suc k) = omega arith in
        (omega arith, (s, (subst (λ j. get_elem? (t ∷ texts) j ≡ some s) (sym gap) q, v)))

keyed_lem : (k : ℕ) (texts : List Text) → IsKeyed (λ i. i.index) (numbered k texts)
unfolding numbered
keyed_lem k [] = tt
keyed_lem k (t ∷ texts) = (
  Every-weaken (IsPlaced length (suc k) texts) _ (λ i h e. absurd (omega (arith, h.0)))
      (numbered (suc k) texts) (placed_lem (suc k) texts),
  keyed_lem (suc k) texts,
)

counted_lem : (k : ℕ) (texts : List Text) → length (numbered k texts) ≡ length texts
unfolding numbered
counted_lem k [] = refl
counted_lem k (t ∷ texts) = omega (arith, counted_lem (suc k) texts)

service : AzureEmbedding ℕ ℕ
service batch w = (items (numbered 0 batch), suc w)

service-Answers : Answers length service
unfolding service
service-Answers = record {
  response = λ batch w. numbered 0 batch;
  sent = λ batch w n. refl;
  right = λ batch w n. record {
    counted = counted_lem 0 batch;
    keyed = keyed_lem 0 batch;
    placed = placed_lem 0 batch;
  };
}

azure_embed_documents-each_example :
    (azure_embed_documents service (codes "abc" ∷ codes "z" ∷ []) 0).0 ≡ ok (3 ∷ 1 ∷ [])
azure_embed_documents-each_example =
    azure_embed_documents-each length service service-Answers (codes "abc" ∷ codes "z" ∷ []) 0
