-- ===== src/Providers.antt =====
-- The adapters of the language models (backend/src/sovereign_rag/llm/): what a request and a stream
-- of the providers are, and the exceptions of the libraries that carry them.
pub mod Ollama
pub mod Sdk
pub mod Factory
pub mod Streams
pub mod Contract
pub mod Collected
mod Tests
use sovereign_rag.Base.{
  ℕ, List, [], ◌∷◌, ◌++◌, Option, none, some, ℕ, Option, none, some, List, [], ◌∷◌, ◌++◌, Bool,
  true, false, not, ◌==◌, is_empty, map,
}
use sovereign_rag.Text.{Text, codes}
use sovereign_rag.Effects.{Outcome, ok, raised, Fault, value_error, other_error}
use sovereign_rag.Json.{
  Json, null, boolean, integer, number, string, array, object, nil, cons, end, field,
}
use sovereign_rag.Llm.{
  CompletionChunk, ChunkStream, finished, failed, chunk, Role, system, user, assistant, ChatMessage,
}

-- what comes out of httpx and of the openai SDK, with `str(exc)`
pub data Trouble : Type 0 where
  http_error : Text → Trouble
  openai_error : Text → Trouble
  -- ValueError, as json.JSONDecodeError
  invalid : Text → Trouble
  other : Fault → Trouble

-- an exception that no handler takes
unfoldable pub passed_on : Trouble → Fault
passed_on (http_error t) = other_error t
passed_on (openai_error t) = other_error t
passed_on (invalid t) = value_error
passed_on (other e) = e

abbrev pub role_name : Role → Text
role_name system = codes "system"
role_name user = codes "user"
role_name assistant = codes "assistant"

-- `temperature` and `max_tokens` are handed on and read by no code here
pub record Request : Type 0 where
  pub model : Text
  pub messages : List (Text × Text)

-- A chunk as the adapters make it: Python does not check that the delta is a text and the counts are
-- numbers. For the counts, `none` is None.
pub record RawChunk : Type 0 where
  pub delta : Json
  pub prompt_tokens : Option Json
  pub completion_tokens : Option Json

-- what an adapter yields, and how it ends
pub data RawStream : Type 0 where
  ended : RawStream
  fails : Fault → RawStream
  yields : RawChunk → RawStream → RawStream

abbrev pub number_of : Option ℕ → Option Json
number_of none = none
number_of (some n) = some (integer n)

abbrev pub raw_chunk : CompletionChunk → RawChunk
raw_chunk c = record {
  delta = string c.delta;
  prompt_tokens = number_of c.prompt_tokens;
  completion_tokens = number_of c.completion_tokens;
}

-- a stream whose chunks are as CompletionChunk declares them
unfoldable pub raw_of : ChunkStream → RawStream
raw_of finished = ended
raw_of (failed e) = fails e
raw_of (chunk c more) = yields (raw_chunk c) (raw_of more)

pub record RawClient (W : Type 0) : Type 0 where
  pub stream_chat : List ChatMessage → W → RawStream × W

pub record RawCollected : Type 0 where
  pub text : Text
  pub prompt_tokens : Option Json
  pub completion_tokens : Option Json

abbrev pub put_before : Text → Outcome Text → Outcome Text
put_before s (ok t) = ok (s ++ t)
put_before s (raised e) = raised e

-- `"".join(parts)`
unfoldable pub join_parts : List Json → Outcome Text
join_parts [] = ok []
join_parts (string s ∷ parts) = put_before s (join_parts parts)
join_parts (v ∷ parts) = raised (other_error (codes "TypeError"))

abbrev pub keep_value : Option Json → Option Json → Option Json
keep_value old none = old
keep_value old (some v) = some v

abbrev pub with_text : Option Json → Option Json → Outcome Text → Outcome RawCollected
with_text p q (ok t) = ok (record { text = t; prompt_tokens = p; completion_tokens = q })
with_text p q (raised e) = raised e

-- the loop of `collect` over such chunks, with its three variables
unfoldable pub collect_raw_from :
    List Json → Option Json → Option Json → RawStream → Outcome RawCollected
unfolding join_parts
collect_raw_from parts p q ended = with_text p q (join_parts parts)
collect_raw_from parts p q (fails e) = raised e
collect_raw_from parts p q (yields c more) =
    collect_raw_from (parts ++ c.delta ∷ []) (keep_value p c.prompt_tokens)
      (keep_value q c.completion_tokens) more

unfoldable pub collect_raw : RawStream → Outcome RawCollected
unfolding collect_raw_from
collect_raw = collect_raw_from [] none none

-- `bool(v)`; whether the number behind a literal is not zero is a parameter
unfoldable pub truthy : (Text → Bool) → Option Json → Bool
truthy nonzero none = false
truthy nonzero (some null) = false
truthy nonzero (some (boolean b)) = b
truthy nonzero (some (integer n)) = not (n == 0)
truthy nonzero (some (number literal)) = nonzero literal
truthy nonzero (some (string s)) = not (is_empty s)
truthy nonzero (some (array nil)) = false
truthy nonzero (some (array (cons v rest))) = true
truthy nonzero (some (object end)) = false
truthy nonzero (some (object (field k v rest))) = true
