-- ===== src/Providers/Tests.antt =====
-- An Ollama server that speaks three lines, and what the adapters make of it.
use sovereign_rag.Base.{ℕ, ◌≡◌, refl, Option, none, some, [], ◌∷◌, true, false, if◌then◌else◌}
use sovereign_rag.Text.{Text, codes, same_text, strip, lstrip, rstrip, is_space}
use sovereign_rag.Effects.{raised, other_error, ok}
use sovereign_rag.Json.{Json, boolean, integer, string, object, Fields, end, field, get}
use sovereign_rag.Providers.{
  http_error, truthy, ended, fails, yields, join_parts, collect_raw_from, collect_raw,
}
use sovereign_rag.Providers.Ollama.{
  piece_of, read_content, LineStream, line, OllamaLlm, given, read_message, read_data, read_json,
  read_line, read_lines,
}
use sovereign_rag.Providers.Sdk.{SdkStream}
use sovereign_rag.Providers.Factory.{ollama, LlmSettings, Network}
use sovereign_rag.Providers.Collected.{SaysPiece, collect-read_lines, then_lines}

abbrev content_of : Text → Fields
content_of t = field (codes "content") (string t) end

abbrev says : Text → Fields
says t = field (codes "message") (object (content_of t)) (field (codes "done") (boolean false) end)

abbrev ends : Fields
ends =
    field (codes "done") (boolean true)
      (field (codes "prompt_eval_count") (integer 9) (field (codes "eval_count") (integer 2) end))

loads : Text → Option Json
loads s =
    if same_text s (codes "1")
    then some (object (says (codes "Hi")))
    else if same_text s (codes "2")
    then some (object (says (codes " you")))
    else if same_text s (codes "3")
    then some (object ends)
    else if same_text s (codes "4")
    then some (object (field (codes "message") (string (codes "x")) end))
    else if same_text s (codes "5")
    then some
        (object (field (codes "message") (object (field (codes "content") (integer 7) end)) end))
    else none

abbrev server : OllamaLlm ℕ
server = record {
  model = codes "qwen3";
  base_url = codes "http://ollama";
  json = record { loads = loads; repr = λ v. [] };
  nonzero = λ s. true;
  quoted = λ s. s;
  post_chat = λ request w. (line (codes "3") LineStream.closed, w);
  get_tags = λ w. (none, w);
}

first_line : SaysPiece server (codes "1") (codes "Hi")
unfolding loads same_text strip lstrip rstrip is_space get truthy
first_line = record {
  fields = says (codes "Hi");
  message = content_of (codes "Hi");
  is_line = record { filled = refl; parsed = refl; healthy = refl };
  going_on = refl;
  has_message = refl;
  has_content = refl;
}

second_line : SaysPiece server (codes "2") (codes " you")
unfolding loads same_text strip lstrip rstrip is_space get truthy
second_line = record {
  fields = says (codes " you");
  message = content_of (codes " you");
  is_line = record { filled = refl; parsed = refl; healthy = refl };
  going_on = refl;
  has_message = refl;
  has_content = refl;
}

collect-read_lines_example :
    collect_raw (
      read_lines server (
        then_lines
          (codes "1" ∷ codes "2" ∷ [])
          (line (codes "3") (line (codes "4") LineStream.closed))))
    ≡ ok (record {
      text = codes "Hi you";
      prompt_tokens = some (integer 9);
      completion_tokens = some (integer 2);
    })
unfolding loads same_text strip lstrip rstrip is_space get truthy given
collect-read_lines_example =
    collect-read_lines server (codes "1" ∷ codes "2" ∷ []) (codes "Hi" ∷ codes " you" ∷ [])
      (codes "3") (some (integer 9)) (some (integer 2)) (line (codes "4") LineStream.closed)
      (first_line, (second_line, tt))
      (record {
        fields = ends;
        is_line = record { filled = refl; parsed = refl; healthy = refl };
        is_done = refl;
        has_prompt = refl;
        has_completion = refl;
      })

abbrev network : Network ℕ
network = record {
  json = server.json;
  nonzero = λ s. true;
  quoted = λ s. s;
  post_chat =
      λ url request w. (line (codes "1") (LineStream.broken (http_error (codes "reset"))), w);
  get_tags = λ url w. (none, w);
  create = λ url key request w. (SdkStream.closed, w);
  models_list = λ url key w. (none, w);
  azure_identity = false;
}

abbrev local_settings : LlmSettings
local_settings = record {
  llm_provider = ollama;
  ollama_model = codes "qwen3";
  ollama_base_url = codes "http://ollama";
  openai_compat_base_url = none;
  openai_compat_model = none;
  openai_compat_api_key = none;
  azure_openai_endpoint = none;
  azure_openai_chat_deployment = none;
  azure_openai_api_key = none;
}

-- a message that is no object: the AttributeError of `get` comes out
odd_message :
    read_lines server (line (codes "4") LineStream.closed)
    ≡ fails (other_error (codes "AttributeError"))
unfolding read_lines read_line read_json read_data read_message loads same_text strip lstrip rstrip
    is_space get truthy
odd_message = refl

-- a stream that ends before its last line ends without a chunk
no_chunk : read_lines server LineStream.closed ≡ ended
unfolding read_lines
no_chunk = refl

-- a content that is no text is yielded, and fails only when it is joined
odd_content :
    (read_lines server (line (codes "5") (line (codes "3") LineStream.closed))
      ≡ yields (piece_of (integer 7)) (
          yields
            (record {
              delta = string [];
              prompt_tokens = some (integer 9);
              completion_tokens = some (integer 2);
            })
            ended))
    × (collect_raw (read_lines server (line (codes "5") (line (codes "3") LineStream.closed)))
        ≡ raised (other_error (codes "TypeError")))
unfolding read_lines read_line read_json read_data read_message read_content given loads same_text
    strip lstrip rstrip is_space get truthy collect_raw collect_raw_from join_parts
odd_content = (refl, refl)
