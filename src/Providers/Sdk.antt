-- ===== src/Providers/Sdk.antt =====
-- The two adapters over the openai SDK: OpenAICompatLLM (backend/src/sovereign_rag/llm/openai_compat.py)
-- and AzureOpenAILLM (backend/src/sovereign_rag/llm/azure.py), whose loops have the same text.
use sovereign_rag.Base.{ℕ, Option, none, some, List, [], ◌∷◌, ◌++◌, if◌then◌else◌, is_empty, map}
use sovereign_rag.Text.{Text, codes}
use sovereign_rag.Effects.{Run, Fault, provider_error, Outcome, ok, raised}
use sovereign_rag.Llm.{
  CompletionChunk, system, user, assistant, ChatMessage, ChunkStream, finished, failed, chunk,
}
use sovereign_rag.Providers.{
  raw_of, RawClient, Trouble, http_error, openai_error, invalid, other, passed_on, Request,
}

pub record Usage : Type 0 where
  pub prompt_tokens : ℕ
  pub completion_tokens : ℕ

-- a chunk of the SDK: the content of each choice's delta, and the usage
pub record SdkChunk : Type 0 where
  pub choices : List (Option Text)
  pub usage : Option Usage

-- the iterator that `create` returns; an exception of `create` is one at once
pub data SdkStream : Type 0 where
  closed : SdkStream
  broken : Trouble → SdkStream
  next : SdkChunk → SdkStream → SdkStream

pub record SdkLlm (W : Type 0) : Type 0 where
  pub model : Text
  -- what the error messages say before and behind the exception
  pub failed_before : Text
  pub failed_behind : Text
  pub unreachable_before : Text
  -- self._client.chat.completions.create, and the iteration over its result
  pub create : Request → W → SdkStream × W
  -- self._client.models.list
  pub models_list : W → Option Trouble × W

-- `_to_openai_messages`
unfoldable pub to_openai_message : ChatMessage → Text × Text
to_openai_message m = elim m.role [
  | system ↦ (codes "system", m.content)
  | user ↦ (codes "user", m.content)
  | assistant ↦ (codes "assistant", m.content)
]

abbrev pub text_chunk : Text → CompletionChunk
text_chunk t = record { delta = t; prompt_tokens = none; completion_tokens = none }

-- `if chunk.choices: ... if delta: yield`
unfoldable pub text_part : List (Option Text) → ChunkStream → ChunkStream
text_part [] more = more
text_part (none ∷ choices) more = more
text_part (some t ∷ choices) more = if is_empty t then more else chunk (text_chunk t) more

-- `if chunk.usage is not None: yield`
unfoldable pub usage_part : Option Usage → ChunkStream → ChunkStream
usage_part none more = more
usage_part (some u) more =
    chunk
      (record {
        delta = [];
        prompt_tokens = some u.prompt_tokens;
        completion_tokens = some u.completion_tokens;
      })
      more

module _ {W : Type 0} (llm : SdkLlm W) where
  -- `except (openai.OpenAIError, httpx.HTTPError, ValueError)`
  unfoldable pub sdk_failure : Trouble → Fault
  sdk_failure (http_error exc) = provider_error (llm.failed_before ++ (exc ++ llm.failed_behind))
  sdk_failure (openai_error exc) = provider_error (llm.failed_before ++ (exc ++ llm.failed_behind))
  sdk_failure (invalid exc) = provider_error (llm.failed_before ++ (exc ++ llm.failed_behind))
  sdk_failure (other e) = e

  unfoldable pub read_sdk : SdkStream → ChunkStream
  unfolding text_part usage_part sdk_failure
  read_sdk closed = finished
  read_sdk (broken e) = failed (sdk_failure e)
  read_sdk (next c more) = text_part c.choices (usage_part c.usage (read_sdk more))

  unfoldable pub sdk_client : RawClient W
  unfolding raw_of read_sdk to_openai_message
  sdk_client = record {
    stream_chat = λ messages w.
        let (stream, w') =
          llm.create (record { model = llm.model; messages = map to_openai_message messages }) w in
        (raw_of (read_sdk stream), w');
  }

  unfoldable pub models_outcome : Option Trouble → Outcome (Unit {0})
  unfolding passed_on
  models_outcome none = ok tt
  models_outcome (some (http_error exc)) =
      raised (provider_error (llm.unreachable_before ++ (codes " is unreachable: " ++ exc)))
  models_outcome (some (openai_error exc)) =
      raised (provider_error (llm.unreachable_before ++ (codes " is unreachable: " ++ exc)))
  models_outcome (some e) = raised (passed_on e)

  unfoldable pub sdk_healthcheck : Run W (Unit {0})
  unfolding models_outcome
  sdk_healthcheck w = let (e, w') = llm.models_list w in (models_outcome e, w')
