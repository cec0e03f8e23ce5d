-- ===== src/Providers/Contract.antt =====
-- That the three adapters keep the contract of LLMClient (backend/src/sovereign_rag/llm/base.py).
use sovereign_rag.Base.{List, inl, inr, ◌⊎◌, Every, ◌≡◌, inl, inr, Option, List}
use sovereign_rag.Text.{Text, codes}
use sovereign_rag.Effects.{Fault, other_error, Allowed, Anything}
use sovereign_rag.Llm.{ChatMessage}
use sovereign_rag.Json.{Json}
use sovereign_rag.Providers.Factory.{LlmProvider, ollama, openai_compatible, azure_openai, Network}
use sovereign_rag.Providers.{Request, RawClient, join_parts, collect_raw}
use sovereign_rag.Providers.Streams.{IsStream, LinesRaise, SdkRaises, AdapterFault, AdapterDelta}

pub record NetworkRaises {W : Type 0} (network : Network W) : Type 0 where
  pub lines :
      (url : Text) (request : Request) (w : W) → LinesRaise (network.post_chat url request w).0
  pub chunks :
      (url : Text) (key : Option Text) (request : Request) (w : W)
      → SdkRaises (network.create url key request w).0

-- what collecting a stream may fail with: also the TypeError of joining what is no text
abbrev pub CollectFault : LlmProvider → Fault → Type 0
CollectFault ollama e = AdapterFault ollama e ⊎ (e ≡ other_error (codes "TypeError"))
CollectFault p e = AdapterFault p e

-- what a client owes its callers
pub record IsLlmClient {W : Type 0} (p : LlmProvider) (client : RawClient W) : Type 0 where
  pub streams :
      (messages : List ChatMessage) (w : W)
      → IsStream (AdapterDelta p) (AdapterFault p) (client.stream_chat messages w).0
  pub collects :
      (messages : List ChatMessage) (w : W)
      → Allowed Anything (CollectFault p) (collect_raw (client.stream_chat messages w).0)

abbrev Joins : (Json → Type 0) → (Fault → Type 0) → Type 0
Joins D F = (parts : List Json) → Every D parts → Allowed Anything F (join_parts parts)

-- the same of both providers over the SDK
abbrev IsSdkClient : {W : Type 0} → RawClient W → Type 0
IsSdkClient client = IsLlmClient openai_compatible client × IsLlmClient azure_openai client

abbrev pub IsConfigError : Fault → Type 0
IsConfigError e = e ≡ other_error (codes "ConfigError")
