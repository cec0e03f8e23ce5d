-- ===== src/Compliance/State.antt =====
-- The state of an audit, its prompts, and what the graph is given
-- (backend/src/sovereign_rag/agents/compliance.py).
use sovereign_rag.Base.{ℕ, List, [], ◌∷◌}
use sovereign_rag.Text.{Text, codes, newline, join}
use sovereign_rag.Effects.{Run}
use sovereign_rag.Json.{JsonModule}
use sovereign_rag.Llm.{LlmClient}
use sovereign_rag.Store.{Uuid, EmbeddingClient, VectorStore}

abbrev pub max_requirements : ℕ
max_requirements = 30

abbrev pub evidence_k : ℕ
evidence_k = 6

abbrev pub map_prompt : Text
map_prompt = join (newline ∷ []) (
    codes "Extract the concrete obligations (requirements) from this regulation"
    ∷ codes "excerpt. Each requirement is one enforceable duty. Keep the excerpt's"
    ∷ codes "language. Answer with a JSON array of objects:"
    ∷ codes "{\"ref\": \"<article or section reference>\", \"text\": \"<the obligation, one"
    ∷ codes "sentence>\"}. JSON only, at most 10 items, skip definitions and preambles."
    ∷ [])

abbrev pub judge_prompt : Text
judge_prompt = join (newline ∷ []) (
    codes "You are a compliance assessor. Decide whether the internal documents below"
    ∷ codes "satisfy the requirement. Answer with ONE JSON object:"
    ∷ codes "{\"verdict\": \"compliant\" | \"gap\" | \"indeterminate\", \"rationale\": \"<one or"
    ∷ codes "two sentences in the requirement's language>\", \"evidence\": [<indices of"
    ∷ codes "the passages that support your verdict, e.g. 1, 3>]}."
    ∷ codes "\"compliant\" needs explicit supporting passages. \"gap\" means the documents"
    ∷ codes "clearly do not cover the requirement. \"indeterminate\" when the passages"
    ∷ codes "are related but insufficient to decide. JSON only."
    ∷ [])

pub record Requirement : Type 0 where
  pub ref : Text
  pub text : Text

pub record Evidence : Type 0 where
  pub filename : Text
  pub excerpt : Text

-- the three values of `verdict`
pub data Verdict : Type 0 where
  compliant gap indeterminate : Verdict

pub record Finding : Type 0 where
  pub ref : Text
  pub verdict : Verdict
  pub rationale : Text
  pub evidence : List Evidence

pub record AuditState : Type 0 where
  pub regulation_id : Uuid
  pub regulation_text : List Text
  pub requirements : List Requirement
  pub findings : List Finding
  pub summary : Text

-- `settings` is not read by any node
pub record AuditDeps (W Vector Score : Type 0) : Type 0 where
  pub llm : LlmClient W
  pub embedder : EmbeddingClient W Vector
  pub store : VectorStore W Vector Score
  pub user_id : Text
  pub on_requirements : List Requirement → Run W (Unit {0})
  pub on_finding : Finding → Run W (Unit {0})
  pub json : JsonModule
