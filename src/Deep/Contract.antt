-- ===== src/Deep/Contract.antt =====
-- What the deep-search graph relies on in the components that it is given: the faults that their
-- calls may raise, and the contract of a reranker (reranking/base.py). `E` stands for any set of
-- faults: with `Never` the components always answer, with `Anything` nothing is said of failures.
use sovereign_rag.Base.{ℕ, ◌≤◌, ◌≡◌, some, List, length}
use sovereign_rag.Text.{Text}
use sovereign_rag.Effects.{Fault, Ends, Anything, Allowed}
use sovereign_rag.Json.{Json, iterate, json_span}
use sovereign_rag.Llm.{ask}
use sovereign_rag.Store.{SearchHit, Reranker}
use sovereign_rag.Deep.State.{DeepDeps}
use sovereign_rag.Deep.Evidence.{IsDistinct}

-- at most `k` hits, and no chunk twice if the pool has none twice
pub record IsNarrowed {Score : Type 0} (k : ℕ) (pool kept : List (SearchHit Score)) : Type 0 where
  pub bounded : length kept ≤ k
  pub distinct : IsDistinct pool → IsDistinct kept

pub record DepsEnd {W Vector Score : Type 0} (E : Fault → Type 0) (deps : DeepDeps W Vector Score)
    : Type 0 where
  pub asks : (system_text user_text : Text) → Ends Anything E (ask deps.llm system_text user_text)
  pub embeds : (query : Text) → Ends Anything E (deps.embedder.embed_query query)
  pub searches :
      (query : Text) (v : Vector) (user : Text) (k : ℕ)
      → Ends Anything E (deps.store.hybrid_search query v user k)
  pub reranks :
      (r : Reranker W Score)
      → deps.reranker ≡ some r
      → (query : Text) (hits : List (SearchHit Score)) (k : ℕ)
      → Ends (IsNarrowed k hits) E (r.rerank query hits k)
  pub emits : (agent detail : Text) → Ends Anything E (deps.emit agent detail)
  -- what `json.loads` returns of a bracketed part of a reply can be iterated
  pub loads :
      (reply s : Text) (v : Json)
      → json_span reply ≡ some s
      → deps.json.loads s ≡ some v
      → Allowed Anything E (iterate v)
