-- ===== src/Ai/Registry.antt =====
-- modules/ai/ai-model.registry.ts: which provider and which model a task goes to.
use vethealth_backend.Base.{
  Bool, false, Option, none, some, List, [], ◌∷◌, Text, codes, text_eq, truthy, split, join,
  if◌then◌else◌,
}

-- `AiProvider`
pub data AiProvider : Type 0 where
  anthropic open_ai google : AiProvider

-- The value of a member of the enumeration.
abbrev pub provider_name : AiProvider → Text
provider_name anthropic = codes "anthropic"
provider_name open_ai = codes "openai"
provider_name google = codes "google"

-- `DEFAULT_MODELS`
abbrev pub default_models : AiProvider → Text
default_models anthropic = codes "claude-opus-5"
default_models open_ai = codes "gpt-5.1"
default_models google = codes "gemini-2.5-flash"

-- `isAiProvider`, with the provider that it finds
unfoldable pub provider_of : Text → Option AiProvider
provider_of t =
    if text_eq t (provider_name anthropic)
    then some anthropic
    else if text_eq t (provider_name open_ai)
    then some open_ai
    else if text_eq t (provider_name google)
    then some google
    else none

-- `ai.provider`, `ai.model` and the keys of the configuration.
pub record AiConfig : Type 0 where
  pub provider : AiProvider
  pub model : Option Text
  pub api_key : AiProvider → Option Text

pub record ModelAddress : Type 0 where
  pub provider : AiProvider
  pub model : Text

-- `a || b`, where `a` may be undefined
abbrev pub or_else : Option Text → Text → Text
or_else none b = b
or_else (some a) b = if truthy a then a else b

-- The address with a prefix; `none` is a `ServiceUnavailableException`.
abbrev pub prefixed : Option AiProvider → List Text → Option ModelAddress
prefixed none rest = none
prefixed (some p) rest =
    some
      (record { provider = p; model = or_else (some (join (b':' ∷ []) rest)) (default_models p) })

abbrev pub resolve_parts : AiConfig → Text → List Text → Option ModelAddress
resolve_parts config address [] = none
resolve_parts config address (prefix ∷ []) = some (record {
  provider = config.provider;
  model = or_else (some address) (default_models config.provider);
})
resolve_parts config address (prefix ∷ next ∷ rest) = prefixed (provider_of prefix) (next ∷ rest)

abbrev pub address_of : AiConfig → Option Text → Text
address_of config override = or_else override (or_else config.model [])

unfoldable pub resolve_address : AiConfig → (override : Option Text) → Option ModelAddress
resolve_address config override =
    let address = address_of config override in resolve_parts config address (split b':' address)

abbrev pub has_key : Option Text → Bool
has_key none = false
has_key (some k) = truthy k

abbrev pub with_key : AiConfig → Option ModelAddress → Option ModelAddress
with_key config none = none
with_key config (some a) = if has_key (config.api_key a.provider) then some a else none

-- `languageModel`: the address that the registry of the SDK is asked for. `none` is a
-- `ServiceUnavailableException` with the code `AI_NOT_CONFIGURED`.
unfoldable pub language_model : AiConfig → (override : Option Text) → Option ModelAddress
language_model config override = with_key config (resolve_address config override)
