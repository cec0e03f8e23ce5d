-- ===== src/Providers/Ollama.antt =====
-- The adapter of the native Ollama API (OllamaLLM, backend/src/sovereign_rag/llm/ollama.py).
use sovereign_rag.Base.{
  Option, none, some, List, [], ◌++◌, Bool, if◌then◌else◌, is_empty, take, map,
}
use sovereign_rag.Text.{Text, codes, strip}
use sovereign_rag.Effects.{Run, Fault, provider_error, other_error, Outcome, ok, raised}
use sovereign_rag.Json.{null, Json, string, object, Fields, get, JsonModule, str_of}
use sovereign_rag.Llm.{ChatMessage}
use sovereign_rag.Providers.{
  Trouble, http_error, passed_on, role_name, Request, truthy, RawChunk, RawStream, ended, fails,
  yields, RawClient,
}

-- `response.aiter_lines()`: lines, then the end or an exception; a refused request is the latter at once
pub data LineStream : Type 0 where
  closed : LineStream
  broken : Trouble → LineStream
  line : Text → LineStream → LineStream

pub record OllamaLlm (W : Type 0) : Type 0 where
  pub model : Text
  pub base_url : Text
  pub json : JsonModule
  -- whether a number that is no natural number is not zero, by its literal
  pub nonzero : Text → Bool
  -- `repr` of a text
  pub quoted : Text → Text
  -- self._client.stream("POST", "/api/chat", json=payload), behind raise_for_status
  pub post_chat : Request → W → LineStream × W
  -- self._client.get("/api/tags"), behind raise_for_status
  pub get_tags : W → Option Trouble × W

-- what one line does: nothing, the last chunk and the return, a piece of text, or an exception
pub data Reading : Type 0 where
  skip : Reading
  last : RawChunk → Reading
  piece : Json → Reading
  refuse : Fault → Reading

-- `data.get(key)`, where null is None
unfoldable pub given : Option Json → Option Json
given none = none
given (some null) = none
given (some v) = some v

abbrev pub piece_of : Json → RawChunk
piece_of v = record { delta = v; prompt_tokens = none; completion_tokens = none }

module _ {W : Type 0} (llm : OllamaLlm W) where
  -- `delta = message.get("content", "")` and the test on it
  unfoldable pub read_content : Option Json → Reading
  unfolding truthy
  read_content none = skip
  read_content (some v) = if truthy llm.nonzero (some v) then piece v else skip

  -- `message = data.get("message") or {}`; what is neither empty nor an object has no `get`
  unfoldable pub read_message : Option Json → Reading
  unfolding read_content truthy
  read_message none = skip
  read_message (some (object fields)) = read_content (get (codes "content") fields)
  read_message (some v) =
      if truthy llm.nonzero (some v) then refuse (other_error (codes "AttributeError")) else skip

  -- `if "error" in data`, and what follows it
  unfoldable pub read_data : Option Json → Fields → Reading
  unfolding read_message truthy given
  read_data (some e) fields = refuse (
      provider_error (
        codes "Ollama reported an error mid-stream: "
        ++ (str_of llm.json e
            ++ (codes ". Check the Ollama server logs at " ++ (llm.base_url ++ codes ".")))))
  read_data none fields =
      if truthy llm.nonzero (get (codes "done") fields)
      then last (record {
        delta = string [];
        prompt_tokens = given (get (codes "prompt_eval_count") fields);
        completion_tokens = given (get (codes "eval_count") fields);
      })
      else read_message (get (codes "message") fields)

  unfoldable pub bad_line : Text → Text → Reading
  bad_line what text = refuse (
      provider_error (
        codes "Received a "
        ++ (what
            ++ (codes " response line from Ollama at "
                ++ (llm.base_url ++ (codes ": " ++ llm.quoted (take 200 text)))))))

  unfoldable pub read_json : Text → Option Json → Reading
  unfolding read_data bad_line
  read_json text none = bad_line (codes "malformed") text
  read_json text (some (object fields)) = read_data (get (codes "error") fields) fields
  read_json text (some v) = bad_line (codes "non-object") text

  unfoldable pub read_line : Text → Reading
  unfolding read_json
  read_line text = if is_empty (strip text) then skip else read_json text (llm.json.loads text)

  unfoldable pub failure : Trouble → Fault
  unfolding passed_on
  failure (http_error exc) = provider_error (
      codes "Ollama request failed: "
      ++ (exc
          ++ (codes ". Is Ollama running at "
              ++ (llm.base_url
                  ++ codes "? Check OLLAMA_BASE_URL, or start the compose 'ollama' profile."))))
  failure e = passed_on e

  -- the loop over the lines
  unfoldable pub read_lines : LineStream → RawStream
  unfolding read_line failure
  read_lines closed = ended
  read_lines (broken e) = fails (failure e)
  read_lines (line text more) = elim (read_line text) [
    | skip ↦ read_lines more
    | last c ↦ yields c ended
    | piece v ↦ yields (piece_of v) (read_lines more)
    | refuse e ↦ fails e
  ]

  abbrev pub payload : List ChatMessage → Request
  payload messages = record {
    model = llm.model;
    messages = map (λ m. (role_name m.role, m.content)) messages;
  }

  unfoldable pub ollama_client : RawClient W
  unfolding read_lines
  ollama_client = record {
    stream_chat = λ messages w.
        let (lines, w') = llm.post_chat (payload messages) w in (read_lines lines, w');
  }

  unfoldable pub tags_outcome : Option Trouble → Outcome (Unit {0})
  unfolding passed_on
  tags_outcome none = ok tt
  tags_outcome (some (http_error exc)) = raised (
      provider_error (
        codes "Ollama healthcheck failed: "
        ++ (exc ++ (codes ". Is Ollama running at " ++ (llm.base_url ++ codes "?")))))
  tags_outcome (some e) = raised (passed_on e)

  unfoldable pub ollama_healthcheck : Run W (Unit {0})
  unfolding tags_outcome
  ollama_healthcheck w = let (e, w') = llm.get_tags w in (tags_outcome e, w')
