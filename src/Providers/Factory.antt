-- ===== src/Providers/Factory.antt =====
-- The constructors of the three adapters, and `get_llm_client`
-- (backend/src/sovereign_rag/llm/__init__.py).
use sovereign_rag.Base.{◌++◌, [], Option, none, some, Bool, true, ◌||◌, if◌then◌else◌, is_empty}
use sovereign_rag.Text.{Text, codes}
use sovereign_rag.Effects.{other_error, Outcome, ok, raised}
use sovereign_rag.Json.{JsonModule}
use sovereign_rag.Providers.{RawClient, Trouble, Request}
use sovereign_rag.Providers.Ollama.{LineStream, OllamaLlm, ollama_client}
use sovereign_rag.Providers.Sdk.{SdkStream, SdkLlm, sdk_client}

pub data LlmProvider : Type 0 where
  ollama openai_compatible azure_openai : LlmProvider

-- the part of Settings that the adapters read
pub record LlmSettings : Type 0 where
  pub llm_provider : LlmProvider
  pub ollama_model : Text
  pub ollama_base_url : Text
  pub openai_compat_base_url : Option Text
  pub openai_compat_model : Option Text
  pub openai_compat_api_key : Option Text
  pub azure_openai_endpoint : Option Text
  pub azure_openai_chat_deployment : Option Text
  pub azure_openai_api_key : Option Text

-- httpx and the openai SDK, by the server's address and the key; no key is a token of azure-identity
pub record Network (W : Type 0) : Type 0 where
  pub json : JsonModule
  pub nonzero : Text → Bool
  pub quoted : Text → Text
  pub post_chat : Text → Request → W → LineStream × W
  pub get_tags : Text → W → Option Trouble × W
  pub create : Text → Option Text → Request → W → SdkStream × W
  pub models_list : Text → Option Text → W → Option Trouble × W
  -- is azure-identity installed
  pub azure_identity : Bool

-- `not value`
abbrev pub missing : Option Text → Bool
missing none = true
missing (some t) = is_empty t

abbrev pub value_or_empty : Option Text → Text
value_or_empty none = []
value_or_empty (some t) = t

module _ {W : Type 0} (network : Network W) (settings : LlmSettings) where
  abbrev pub config_error : {A : Type 0} → Outcome A
  config_error = raised (other_error (codes "ConfigError"))

  unfoldable pub new_ollama : OllamaLlm W
  new_ollama = record {
    model = settings.ollama_model;
    base_url = settings.ollama_base_url;
    json = network.json;
    nonzero = network.nonzero;
    quoted = network.quoted;
    post_chat = network.post_chat settings.ollama_base_url;
    get_tags = network.get_tags settings.ollama_base_url;
  }

  -- an empty key is no key
  abbrev pub compat_key : Option Text → Text
  compat_key none = codes "not-needed"
  compat_key (some key) = if is_empty key then codes "not-needed" else key

  unfoldable pub compat_llm : Text → Text → SdkLlm W
  compat_llm url model =
      let key = some (compat_key settings.openai_compat_api_key) in
      record {
        model = model;
        failed_before = codes "OpenAI-compatible endpoint at " ++ (url ++ codes " failed: ");
        failed_behind =
            codes ". Check OPENAI_COMPAT_BASE_URL, OPENAI_COMPAT_API_KEY and OPENAI_COMPAT_MODEL.";
        unreachable_before = codes "OpenAI-compatible endpoint at " ++ url;
        create = network.create url key;
        models_list = network.models_list url key;
      }

  unfoldable pub new_compat : Outcome (SdkLlm W)
  unfolding compat_llm
  new_compat =
      let url = settings.openai_compat_base_url in
      let model = settings.openai_compat_model in
      if missing url || missing model
      then config_error
      else ok (compat_llm (value_or_empty url) (value_or_empty model))

  unfoldable pub azure_llm : Text → Text → SdkLlm W
  azure_llm endpoint deployment =
      let key = settings.azure_openai_api_key in
      record {
        model = deployment;
        failed_before =
            codes "Azure OpenAI deployment '"
            ++ (deployment ++ (codes "' at " ++ (endpoint ++ codes " failed: ")));
        failed_behind =
            codes
              ". Check AZURE_OPENAI_ENDPOINT, AZURE_OPENAI_API_KEY and AZURE_OPENAI_CHAT_DEPLOYMENT.";
        unreachable_before = codes "Azure OpenAI endpoint " ++ endpoint;
        create = network.create endpoint key;
        models_list = network.models_list endpoint key;
      }

  abbrev pub has_credentials : Option Text → Bool
  has_credentials none = network.azure_identity
  has_credentials (some key) = true

  unfoldable pub new_azure : Outcome (SdkLlm W)
  unfolding azure_llm
  new_azure =
      let endpoint = settings.azure_openai_endpoint in
      let deployment = settings.azure_openai_chat_deployment in
      if missing endpoint || missing deployment
      then config_error
      else if has_credentials settings.azure_openai_api_key
      then ok (azure_llm (value_or_empty endpoint) (value_or_empty deployment))
      else config_error

  abbrev pub with_client : Outcome (SdkLlm W) → Outcome (RawClient W)
  with_client (ok llm) = ok (sdk_client llm)
  with_client (raised e) = raised e

  unfoldable pub get_llm_client : Outcome (RawClient W)
  unfolding new_ollama new_compat new_azure
  get_llm_client = elim settings.llm_provider [
    | ollama ↦ ok (ollama_client new_ollama)
    | openai_compatible ↦ with_client new_compat
    | azure_openai ↦ with_client new_azure
  ]
