-- ===== src/Seo/Prompts.antt =====
-- modules/ai/tasks/seo-metadata.task.ts: the input of the task, its prompt and the fields of its
-- schema. `JSON.stringify` is left to the caller: the prompt is the record that it prints.
use vethealth_backend.Base.{
  ◌≡◌, refl, Bool, true, false, not, ◌||◌, Option, none, some, List, [], ◌∷◌, filter, any, Text,
  truthy, trim, arith, if◌then◌else◌,
}
use vethealth_backend.Context.{prepare_seo_context}
use vethealth_backend.Seo.{
  SeoField, meta_title, meta_description, meta_keywords, og_title, og_description, SeoFieldValues,
}
use vethealth_backend.Seo.Entries.{SeoEntityType, post}
use vethealth_backend.Seo.Review.{seo_fields}

-- `SeoMetadataInput`; a field of `current` that is missing is none.
pub record SeoMetadataInput : Type 0 where
  pub title : Text
  pub text : Text
  pub topics : Option (List Text)
  pub entity_type : Option SeoEntityType
  pub fields : Option (List SeoField)
  pub current : SeoFieldValues
  pub hint : Option Text
  pub primary_keyword : Option Text
  pub source_truncated : Bool

-- The object that the prompt prints; `current` is its list of entries.
pub record Prompt : Type 0 where
  pub entity_type : SeoEntityType
  pub title : Text
  pub topics : List Text
  pub text : Text
  pub source_truncated : Bool
  pub fields : List SeoField
  pub current : List (SeoField × Text)
  pub primary_keyword : Option Text
  pub hint : Option Text

abbrev pub is_meta_keywords : SeoField → Bool
is_meta_keywords meta_keywords = true
is_meta_keywords _ = false

-- `DEFAULT_SEO_FIELDS`
abbrev pub default_seo_fields : List SeoField
default_seo_fields = filter (λ f. not (is_meta_keywords f)) seo_fields

abbrev or_default {ℓ} : {A : Type ℓ} → Option A → A → A
or_default none d = d
or_default (some a) d = a

-- `x?.trim() || undefined`
abbrev trimmed_or_none : Option Text → Option Text
trimmed_or_none none = none
trimmed_or_none (some t) = if truthy (trim t) then some (trim t) else none

-- The entries of `current` that are not blank, trimmed.
abbrev current_of : SeoFieldValues → List SeoField → List (SeoField × Text)
current_of current [] = []
current_of current (f ∷ fs) =
    let rest = current_of current fs in
    elim (trimmed_or_none (current f)) [ none ↦ rest | some t ↦ (f, t) ∷ rest ]

-- `buildPrompt`
unfoldable pub build_prompt : SeoMetadataInput → Prompt
build_prompt input =
    let context = prepare_seo_context input.text in
    record {
      entity_type = or_default input.entity_type post;
      title = input.title;
      topics = or_default input.topics [];
      text = context.text;
      source_truncated = input.source_truncated || context.source_truncated;
      fields = or_default input.fields default_seo_fields;
      current = current_of input.current seo_fields;
      primary_keyword = trimmed_or_none input.primary_keyword;
      hint = trimmed_or_none input.hint;
    }

abbrev pub same_field : SeoField → SeoField → Bool
same_field meta_title meta_title = true
same_field meta_description meta_description = true
same_field meta_keywords meta_keywords = true
same_field og_title og_title = true
same_field og_description og_description = true
same_field _ _ = false

-- The keys of the schema: `seoMetadataSchema.omit` without fields, and `pick` with them.
unfoldable pub schema_fields : Option (List SeoField) → List SeoField
schema_fields none = filter (λ f. not (is_meta_keywords f)) seo_fields
schema_fields (some fields) = filter (λ f. any (same_field f) fields) seo_fields

any-filter-same_field :
    (p : SeoField → Bool) (f : SeoField) → any (same_field f) (filter p seo_fields) ≡ p f
any-filter-same_field p meta_title = ground arith
any-filter-same_field p meta_description = ground arith
any-filter-same_field p meta_keywords = ground arith
any-filter-same_field p og_title = ground arith
any-filter-same_field p og_description = ground arith

schema_fields-or_default :
    (fields : Option (List SeoField)) (f : SeoField)
    → any (same_field f) (schema_fields fields)
      ≡ any (same_field f) (or_default fields default_seo_fields)
unfolding schema_fields
schema_fields-or_default none f = refl
schema_fields-or_default (some fields) f = any-filter-same_field (λ g. any (same_field g) fields) f

-- The answer is asked for exactly the fields that the prompt names: a field is a key of the schema
-- exactly when it stands among the prompt's fields.
pub schema_fields-build_prompt :
    (input : SeoMetadataInput) (f : SeoField)
    → any (same_field f) (schema_fields input.fields)
      ≡ any (same_field f) (build_prompt input).fields
unfolding build_prompt
schema_fields-build_prompt input f = schema_fields-or_default input.fields f
