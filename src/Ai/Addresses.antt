-- ===== src/Ai/Addresses.antt =====
-- Addresses of models.
use vethealth_backend.Base.{
  ◌≡◌, refl, inl, inr, true, Option, none, some, List, [], ◌∷◌, ◌++◌, Text, codes, text_eq, truthy,
  split, join, Lacks, split-append, join-split, split_cons, arith, Option-cases,
}
use vethealth_backend.Ai.Registry.{
  AiProvider, anthropic, open_ai, google, provider_name, provider_of, default_models, AiConfig,
  ModelAddress, or_else, address_of, resolve_parts, resolve_address, has_key, language_model,
}

provider_of-name : (p : AiProvider) → provider_of (provider_name p) ≡ some p
unfolding provider_of codes text_eq
provider_of-name anthropic = refl
provider_of-name open_ai = refl
provider_of-name google = refl

name-Lacks : (p : AiProvider) → Lacks b':' (provider_name p)
unfolding codes
name-Lacks anthropic = ground arith
name-Lacks open_ai = ground arith
name-Lacks google = ground arith

truthy-address : (p : AiProvider) (m : Text) → truthy (provider_name p ++ (b':' ∷ m)) ≡ true
unfolding codes
truthy-address anthropic m = refl
truthy-address open_ai m = refl
truthy-address google m = refl

resolve-cons :
    (config : AiConfig) (p : AiProvider) (address m : Text)
    → resolve_parts config address (provider_name p ∷ split b':' m)
      ≡ some (record { provider = p; model = or_else (some m) (default_models p) })
resolve-cons config p address m =
    let (part, parts, e) = split_cons b':' m in
    ground (arith, provider_of-name p, join-split b':' m)

-- A full address goes to the provider that it names, whatever provider is configured, and to the
-- model behind the first colon, which may have colons itself; without a model it is the default of
-- that provider.
pub resolve_address-prefixed :
    (config : AiConfig) (p : AiProvider) (m : Text)
    → resolve_address config (some (provider_name p ++ (b':' ∷ m)))
      ≡ some (record { provider = p; model = or_else (some m) (default_models p) })
unfolding resolve_address
resolve_address-prefixed config p m = ground (
  arith,
  truthy-address p m,
  split-append b':' (provider_name p) m (name-Lacks p),
  resolve-cons config p (provider_name p ++ (b':' ∷ m)) m,
)

default-truthy : (p : AiProvider) → truthy (default_models p) ≡ true
unfolding codes
default-truthy anthropic = refl
default-truthy open_ai = refl
default-truthy google = refl

or_else-truthy : (o : Option Text) (t : Text) → truthy t ≡ true → truthy (or_else o t) ≡ true
or_else-truthy none t h = ground arith
or_else-truthy (some s) t h = ground arith

resolve_parts-truthy :
    (config : AiConfig) (address : Text) (parts : List Text) (a : ModelAddress)
    → resolve_parts config address parts ≡ some a
    → truthy a.model ≡ true
resolve_parts-truthy config address [] a e = absurd (ground arith)
resolve_parts-truthy config address (prefix ∷ []) a e = ground (
  arith,
  or_else-truthy (some address) (default_models config.provider) (default-truthy config.provider),
)
resolve_parts-truthy config address (prefix ∷ next ∷ rest) a e =
    elim (Option-cases (provider_of prefix)) [
      | inl f ↦ absurd (ground arith)
      | inr (p, f) ↦ ground (
        arith,
        or_else-truthy (some (join (b':' ∷ []) (next ∷ rest))) (default_models p)
            (default-truthy p),
      )
    ]

-- A request that goes to a provider has a key for that very provider and names a model.
pub language_model_sound :
    (config : AiConfig) (override : Option Text) (a : ModelAddress)
    → language_model config override ≡ some a
    → (has_key (config.api_key a.provider) ≡ true) × (truthy a.model ≡ true)
unfolding language_model resolve_address
language_model_sound config override a e = elim (Option-cases (resolve_address config override)) [
  | inl f ↦ absurd (ground arith)
  | inr (b, f) ↦ (
    ground arith,
    ground (
      arith,
      resolve_parts-truthy config (address_of config override)
          (split b':' (address_of config override)) b f,
    ),
  )
]
