-- ===== src/Embeddings.antt =====
-- The adapters of the embedding models (backend/src/sovereign_rag/embeddings/local.py and azure.py).
pub mod Batches
mod Tests
use sovereign_rag.Base.{
  ◌==◌, ℕ, zero, suc, Option, none, some, List, [], ◌∷◌, ◌++◌, Bool, true, false, ltb,
  if◌then◌else◌, length, take, drop, map, is_empty, sort_by,
}
use sovereign_rag.Text.{Text, codes}
use sovereign_rag.Effects.{
  Fault, provider_error, other_error, Outcome, ok, raised, Run, pure, lift, ◌>>=◌,
}
use sovereign_rag.Providers.{Trouble, http_error, openai_error, passed_on}

-- `family in model_name`
unfoldable pub starts : Text → Text → Bool
starts [] t = true
starts (c ∷ s) [] = false
starts (c ∷ s) (d ∷ t) = if c == d then starts s t else false

unfoldable pub contains : Text → Text → Bool
unfolding starts
contains s [] = is_empty s
contains s (d ∷ t) = if starts s (d ∷ t) then true else contains s t

-- `PREFIXES`: the family, the prefix of a query and that of a passage
abbrev pub prefixes : List (Text × Text × Text)
prefixes = (codes "e5", codes "query: ", codes "passage: ") ∷ (codes "bge-m3", [], []) ∷ []

unfoldable pub prefixes_in : List (Text × Text × Text) → Text → Text × Text
unfolding contains
prefixes_in [] model_name = ([], [])
prefixes_in ((family, query, passage) ∷ rest) model_name =
    if contains family model_name then (query, passage) else prefixes_in rest model_name

-- `_prefixes_for`
unfoldable pub prefixes_for : Text → Text × Text
unfolding prefixes_in
prefixes_for model_name = prefixes_in prefixes model_name

-- `vectors[0]`
abbrev pub first_vector : {Vector : Type 0} → List Vector → Outcome Vector
first_vector [] = raised (other_error (codes "IndexError"))
first_vector (v ∷ vectors) = ok v

-- LocalEmbedding; `encode` is that of sentence-transformers, with normalised vectors
pub record LocalEmbedding (W Vector : Type 0) : Type 0 where
  pub model : Text
  pub encode : List Text → Run W (List Vector)

-- an item of a response of the service
pub record Item (Vector : Type 0) : Type 0 where
  pub index : ℕ
  pub embedding : Vector

pub data Response (Vector : Type 0) : Type 0 where
  items : List (Item Vector) → Response Vector
  trouble : Trouble → Response Vector

-- AzureEmbedding; `create` is that of the openai SDK for the deployment
abbrev pub AzureEmbedding : Type 0 → Type 0 → Type 0
AzureEmbedding W Vector = List Text → W → Response Vector × W

-- `_BATCH_SIZE`
abbrev pub batch_size : ℕ
batch_size = 32

-- `sorted(response.data, key=lambda item: item.index)`
unfoldable pub in_order : {Vector : Type 0} → List (Item Vector) → List (Item Vector)
in_order = sort_by (λ a b. ltb b.index a.index)

unfoldable pub embedded : {Vector : Type 0} → Response Vector → Outcome (List Vector)
unfolding in_order passed_on
embedded (items xs) = ok (map (λ i. i.embedding) (in_order xs))
embedded (trouble (http_error t)) =
    raised (provider_error (codes "azure_openai embeddings request failed: " ++ t))
embedded (trouble (openai_error t)) =
    raised (provider_error (codes "azure_openai embeddings request failed: " ++ t))
embedded (trouble e) = raised (passed_on e)

module _ {W Vector : Type 0} where
  unfoldable pub local_embed_documents : LocalEmbedding W Vector → List Text → Run W (List Vector)
  unfolding prefixes_for
  local_embed_documents e texts = e.encode (map (λ t. (prefixes_for e.model).1 ++ t) texts)

  unfoldable pub local_embed_query : LocalEmbedding W Vector → Text → Run W Vector
  unfolding prefixes_for ◌>>=◌
  local_embed_query e text = do
    vectors ← e.encode (((prefixes_for e.model).0 ++ text) ∷ [])
    lift (first_vector vectors)

  -- one request
  unfoldable pub request : AzureEmbedding W Vector → List Text → Run W (List Vector)
  unfolding embedded
  request create batch w = let (response, w') = create batch w in (embedded response, w')

  -- the loop over the batches: `n` rounds
  unfoldable pub embed_rounds : ℕ → AzureEmbedding W Vector → List Text → Run W (List Vector)
  unfolding request ◌>>=◌
  embed_rounds zero create texts = pure []
  embed_rounds (suc n) create [] = pure []
  embed_rounds (suc n) create (t ∷ texts) = do
    vectors ← request create (take batch_size (t ∷ texts))
    rest ← embed_rounds n create (drop batch_size (t ∷ texts))
    pure (vectors ++ rest)

  unfoldable pub azure_embed_documents : AzureEmbedding W Vector → List Text → Run W (List Vector)
  unfolding embed_rounds
  azure_embed_documents create texts = embed_rounds (length texts) create texts

  unfoldable pub azure_embed_query : AzureEmbedding W Vector → Text → Run W Vector
  unfolding azure_embed_documents ◌>>=◌
  azure_embed_query create text = do
    vectors ← azure_embed_documents create (text ∷ [])
    lift (first_vector vectors)
