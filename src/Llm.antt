-- ===== src/Llm.antt =====
-- Messages, streamed chunks and `collect` (backend/src/sovereign_rag/llm/base.py).
use sovereign_rag.Base.{ℕ, Option, none, some, List, [], ◌∷◌, ◌++◌}
use sovereign_rag.Text.{Text}
use sovereign_rag.Effects.{Fault, Outcome, ok, raised, Run, ◌>>=◌, pure, lift}

pub data Role : Type 0 where
  system user assistant : Role

pub record ChatMessage : Type 0 where
  pub role : Role
  pub content : Text

pub record CompletionChunk : Type 0 where
  pub delta : Text
  pub prompt_tokens : Option ℕ
  pub completion_tokens : Option ℕ

-- An asynchronous iterator of chunks: it yields, then stops or raises.
pub data ChunkStream : Type 0 where
  finished : ChunkStream
  failed : Fault → ChunkStream
  chunk : CompletionChunk → ChunkStream → ChunkStream

-- LLMClient.stream_chat; the model name is not read by the code modelled here
pub record LlmClient (W : Type 0) : Type 0 where
  pub stream_chat : List ChatMessage → W → ChunkStream × W

-- `if chunk.tokens is not None: tokens = chunk.tokens`
unfoldable pub keep_tokens : Option ℕ → Option ℕ → Option ℕ
keep_tokens old none = old
keep_tokens old (some n) = some n

pub record Collected : Type 0 where
  pub text : Text
  pub prompt_tokens : Option ℕ
  pub completion_tokens : Option ℕ

-- the loop of `collect` over its three variables; `text` is the join of `parts` so far
unfoldable pub collect_from : Collected → ChunkStream → Outcome Collected
unfolding keep_tokens
collect_from acc finished = ok acc
collect_from acc (failed e) = raised e
collect_from acc (chunk c rest) =
    collect_from
      (record {
        text = acc.text ++ c.delta;
        prompt_tokens = keep_tokens acc.prompt_tokens c.prompt_tokens;
        completion_tokens = keep_tokens acc.completion_tokens c.completion_tokens;
      })
      rest

unfoldable pub collect : ChunkStream → Outcome Collected
unfolding collect_from
collect = collect_from (record { text = []; prompt_tokens = none; completion_tokens = none })

-- `ask` of the two graphs: one system message, one user message, the text of the reply
unfoldable pub ask : {W : Type 0} → LlmClient W → Text → Text → Run W Text
unfolding collect ◌>>=◌
ask llm system_text user_text w =
    let (stream, w') =
      llm.stream_chat
        (record { role = system; content = system_text }
          ∷ record { role = user; content = user_text }
          ∷ [])
        w in
    (do reply ← lift (collect stream); pure reply.text) w'
