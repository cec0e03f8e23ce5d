-- ===== src/Deep/State.antt =====
-- The state carried through the deep-search graph, and what its nodes are given
-- (backend/src/sovereign_rag/agents/state.py, `DeepDeps` and `initial_state` of graph.py).
use sovereign_rag.Base.{ℕ, Option, List, []}
use sovereign_rag.Text.{Text}
use sovereign_rag.Effects.{Run}
use sovereign_rag.Json.{JsonModule}
use sovereign_rag.Llm.{LlmClient}
use sovereign_rag.Store.{SearchHit, EmbeddingClient, VectorStore, Reranker}

pub data ClaimVerdict : Type 0 where
  supported misattributed unsupported unanswerable : ClaimVerdict

abbrev pub max_search_repairs : ℕ
max_search_repairs = 2

abbrev pub max_write_repairs : ℕ
max_write_repairs = 2

abbrev pub max_replans : ℕ
max_replans = 1

pub record Claim : Type 0 where
  pub text : Text
  pub verdict : ClaimVerdict
  pub fix_query : Text

-- `""`, `"delivered"`, `"abstained"`
pub data DeepOutcome : Type 0 where
  undecided delivered abstained : DeepOutcome

pub record DeepState (Score : Type 0) : Type 0 where
  pub question : Text
  pub plan : List Text
  pub evidence : List (SearchHit Score)
  pub pending_queries : List Text
  pub draft : Text
  pub claims : List Claim
  pub search_repairs : ℕ
  pub write_repairs : ℕ
  pub replans : ℕ
  pub outcome : DeepOutcome

-- `settings` is not read by any node
pub record DeepDeps (W Vector Score : Type 0) : Type 0 where
  pub llm : LlmClient W
  pub embedder : EmbeddingClient W Vector
  pub store : VectorStore W Vector Score
  pub reranker : Option (Reranker W Score)
  pub user_id : Text
  pub emit : Text → Text → Run W (Unit {0})
  -- the module `json` of the language
  pub json : JsonModule

unfoldable pub initial_state : {Score : Type 0} → Text → DeepState Score
initial_state question = record {
  question = question;
  plan = [];
  evidence = [];
  pending_queries = [];
  draft = [];
  claims = [];
  search_repairs = 0;
  write_repairs = 0;
  replans = 0;
  outcome = undecided;
}
