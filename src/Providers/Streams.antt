-- ===== src/Providers/Streams.antt =====
-- The streams that the adapters make of what the libraries give them (backend/src/sovereign_rag/llm/).
use sovereign_rag.Base.{
  ◌≡◌, refl, ◌⊎◌, inl, inr, Option, none, some, List, [], ◌∷◌, Bool, true, false, if◌then◌else◌,
  is_empty,
}
use sovereign_rag.Text.{Text, codes, strip}
use sovereign_rag.Effects.{Fault, provider_error, other_error}
use sovereign_rag.Json.{Json, null, boolean, integer, number, string, array, object, Fields, get}
use sovereign_rag.Llm.{ChunkStream}
use sovereign_rag.Providers.Ollama.{
  bad_line, LineStream, line, OllamaLlm, Reading, skip, last, piece, refuse, read_content,
  read_message, read_data, read_json, read_line, failure, read_lines, piece_of,
}
use sovereign_rag.Providers.Sdk.{
  SdkStream, next, SdkLlm, text_part, usage_part, sdk_failure, read_sdk, Usage,
}
use sovereign_rag.Providers.Factory.{LlmProvider, ollama, openai_compatible, azure_openai}
use sovereign_rag.Providers.{
  RawChunk, RawStream, ended, fails, yields, raw_of, http_error, openai_error, invalid, other,
  truthy,
}

-- a chunk with text has no counts
abbrev pub IsChunk : RawChunk → Type 0
IsChunk c = (c.delta ≡ string []) ⊎ ((c.prompt_tokens ≡ none) × (c.completion_tokens ≡ none))

-- `D` holds of the deltas, and the stream fails only with a fault of `E`
abbrev pub IsStream : (Json → Type 0) → (Fault → Type 0) → RawStream → Type 0
IsStream D E ended = Unit
IsStream D E (fails e) = E e
IsStream D E (yields c more) = D c.delta × IsChunk c × IsStream D E more

-- httpx raises its own exceptions while the lines come
abbrev pub LinesRaise : LineStream → Type 0
LinesRaise LineStream.closed = Unit
LinesRaise (LineStream.broken (http_error t)) = Unit
LinesRaise (LineStream.broken e) = ⊥
LinesRaise (line text more) = LinesRaise more

-- the SDK raises its own, those of httpx, and ValueError
abbrev pub SdkRaises : SdkStream → Type 0
SdkRaises SdkStream.closed = Unit
SdkRaises (SdkStream.broken (other e)) = ⊥
SdkRaises (SdkStream.broken e) = Unit
SdkRaises (next c more) = SdkRaises more

abbrev pub IsProviderError : Fault → Type 0
IsProviderError (provider_error t) = Unit
IsProviderError e = ⊥

abbrev pub IsAttributeError : Fault → Type 0
IsAttributeError e = e ≡ other_error (codes "AttributeError")

-- what a stream may fail with
abbrev pub AdapterFault : LlmProvider → Fault → Type 0
AdapterFault ollama e = IsProviderError e ⊎ IsAttributeError e
AdapterFault openai_compatible e = IsProviderError e
AdapterFault azure_openai e = IsProviderError e

abbrev pub IsText : Json → Type 0
IsText (string s) = Unit
IsText v = ⊥

-- what the deltas of a stream are
abbrev pub AdapterDelta : LlmProvider → Json → Type 0
AdapterDelta ollama v = Unit
AdapterDelta openai_compatible v = IsText v
AdapterDelta azure_openai v = IsText v

abbrev IsReading : Reading → Type 0
IsReading skip = Unit
IsReading (last c) = c.delta ≡ string []
IsReading (piece t) = Unit
IsReading (refuse e) = IsProviderError e ⊎ IsAttributeError e

module _ {W : Type 0} (llm : OllamaLlm W) where
  attribute_error :
      (t : Bool) → IsReading (if t then refuse (other_error (codes "AttributeError")) else skip)
  attribute_error true = inr refl
  attribute_error false = tt

  pieced : (t : Bool) (v : Json) → IsReading (if t then piece v else skip)
  pieced true v = tt
  pieced false v = tt

  read_content-IsReading : (v : Option Json) → IsReading (read_content llm v)
  unfolding read_content
  read_content-IsReading none = tt
  read_content-IsReading (some v) = pieced (truthy llm.nonzero (some v)) v

  read_message-IsReading : (v : Option Json) → IsReading (read_message llm v)
  unfolding read_message
  read_message-IsReading none = tt
  read_message-IsReading (some (object fs)) = read_content-IsReading (get (codes "content") fs)
  read_message-IsReading (some null) = attribute_error (truthy llm.nonzero (some null))
  read_message-IsReading (some (boolean b)) =
      attribute_error (truthy llm.nonzero (some (boolean b)))
  read_message-IsReading (some (integer n)) =
      attribute_error (truthy llm.nonzero (some (integer n)))
  read_message-IsReading (some (number l)) = attribute_error (truthy llm.nonzero (some (number l)))
  read_message-IsReading (some (array xs)) = attribute_error (truthy llm.nonzero (some (array xs)))
  read_message-IsReading (some (string s)) = attribute_error (truthy llm.nonzero (some (string s)))

  done_or :
      (t : Bool) (c : RawChunk) (r : Reading)
      → c.delta ≡ string []
      → IsReading r
      → IsReading (if t then last c else r)
  done_or true c r h k = h
  done_or false c r h k = k

  read_data-IsReading : (e : Option Json) (fields : Fields) → IsReading (read_data llm e fields)
  unfolding read_data
  read_data-IsReading (some e) fields = inl tt
  read_data-IsReading none fields =
      done_or (truthy llm.nonzero (get (codes "done") fields)) _ _ refl
        (read_message-IsReading (get (codes "message") fields))

  read_json-IsReading : (text : Text) (v : Option Json) → IsReading (read_json llm text v)
  unfolding read_json bad_line
  read_json-IsReading text none = inl tt
  read_json-IsReading text (some (object fields)) = read_data-IsReading _ fields
  read_json-IsReading text (some null) = inl tt
  read_json-IsReading text (some (boolean b)) = inl tt
  read_json-IsReading text (some (integer n)) = inl tt
  read_json-IsReading text (some (number l)) = inl tt
  read_json-IsReading text (some (string s)) = inl tt
  read_json-IsReading text (some (array xs)) = inl tt

  blank_or : (t : Bool) (r : Reading) → IsReading r → IsReading (if t then skip else r)
  blank_or true r h = tt
  blank_or false r h = h

  read_line-IsReading : (text : Text) → IsReading (read_line llm text)
  unfolding read_line
  read_line-IsReading text =
      blank_or (is_empty (strip text)) _ (read_json-IsReading text (llm.json.loads text))

  abbrev Good : RawStream → Type 0
  Good = IsStream (AdapterDelta ollama) (AdapterFault ollama)

  lead :
      (r : Reading) (more : RawStream)
      → IsReading r
      → Good more
      → Good (elim r [
        | skip ↦ more
        | last c ↦ yields c ended
        | piece v ↦ yields (piece_of v) more
        | refuse e ↦ fails e
      ])
  lead skip more h k = k
  lead (last c) more h k = (tt, inl h, tt)
  lead (piece v) more h k = (tt, inr (refl, refl), k)
  lead (refuse e) more h k = h

  pub read_lines-IsStream : (lines : LineStream) → LinesRaise lines → Good (read_lines llm lines)
  unfolding read_lines failure
  read_lines-IsStream LineStream.closed h = tt
  read_lines-IsStream (LineStream.broken (http_error t)) h = inl tt
  read_lines-IsStream (LineStream.broken (openai_error t)) h = absurd h
  read_lines-IsStream (LineStream.broken (invalid t)) h = absurd h
  read_lines-IsStream (LineStream.broken (other e)) h = absurd h
  read_lines-IsStream (line text more) h =
      lead (read_line llm text) (read_lines llm more) (read_line-IsReading text)
        (read_lines-IsStream more h)

-- the two adapters over the SDK
abbrev pub IsTyped : ChunkStream → Type 0
IsTyped stream = IsStream IsText IsProviderError (raw_of stream)

text_part-IsTyped :
    (choices : List (Option Text)) (more : ChunkStream)
    → IsTyped more
    → IsTyped (text_part choices more)
unfolding text_part raw_of
text_part-IsTyped [] more h = h
text_part-IsTyped (none ∷ choices) more h = h
text_part-IsTyped (some [] ∷ choices) more h = h
text_part-IsTyped (some (c ∷ t) ∷ choices) more h = (tt, inr (refl, refl), h)

usage_part-IsTyped :
    (u : Option Usage) (more : ChunkStream) → IsTyped more → IsTyped (usage_part u more)
unfolding usage_part raw_of
usage_part-IsTyped none more h = h
usage_part-IsTyped (some u) more h = (tt, inl refl, h)

pub read_sdk-IsTyped :
    {W : Type 0} (llm : SdkLlm W) (stream : SdkStream)
    → SdkRaises stream
    → IsTyped (read_sdk llm stream)
unfolding read_sdk sdk_failure raw_of
read_sdk-IsTyped llm SdkStream.closed h = tt
read_sdk-IsTyped llm (SdkStream.broken (http_error t)) h = tt
read_sdk-IsTyped llm (SdkStream.broken (openai_error t)) h = tt
read_sdk-IsTyped llm (SdkStream.broken (invalid t)) h = tt
read_sdk-IsTyped llm (SdkStream.broken (other e)) h = absurd h
read_sdk-IsTyped llm (next c more) h =
    text_part-IsTyped c.choices _ (usage_part-IsTyped c.usage _ (read_sdk-IsTyped llm more h))
