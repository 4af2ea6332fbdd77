-- ===== src/Seo/Sources.antt =====
-- `generate` and `buildSource` of modules/seo/seo.service.ts: what is read of a material, and the
-- call of the AI service. The repositories' queries and the AI service are parameters.
use vethealth_backend.Base.{
  Bool, true, false, not, ◌&&◌, Option, none, some, List, [], ◌∷◌, ◌++◌, filter, Text, codes,
  text_eq, truthy, trim, join, if◌then◌else◌,
}
use vethealth_backend.Context.Lexical.{Json}
use vethealth_backend.Context.Pages.{lexical_content_text, page_blocks_text}
use vethealth_backend.Seo.{SeoField, SeoFieldValues}
use vethealth_backend.Seo.Entries.{SeoEntityType, post, page, topic}
use vethealth_backend.Seo.Prompts.{SeoMetadataInput}

-- A post with the titles of its topics.
pub record PostSource : Type 0 where
  pub title : Text
  pub content : Option Text
  pub topics : Option (List Text)

pub record PageSource : Type 0 where
  pub title : Text
  pub content : Option Text

-- The page of a topic, and the name of its status.
pub record TopicPage : Type 0 where
  pub status : Option Text
  pub content : Option Text

pub data ContentType : Type 0 where
  page_content post_content other_content : ContentType

-- A topic with the titles of its parent and children.
pub record TopicSource : Type 0 where
  pub title : Text
  pub description : Option Text
  pub content_type : ContentType
  pub parent : Option Text
  pub children : List Text
  pub page : Option TopicPage

-- The condition on the posts of a topic.
pub record PostsWhere : Type 0 where
  pub topic : Text
  pub status : Text

-- The queries: `findOne` of the three repositories, and the titles that `find` returns.
pub record Queries : Type 0 where
  pub find_post : Text → Option PostSource
  pub find_page : Text → Option PageSource
  pub find_topic : Text → Option TopicSource
  pub find_titles : PostsWhere → List Text

-- `SeoGenerationOptionsDto`
pub record SeoGenerationOptions : Type 0 where
  pub fields : Option (List SeoField)
  pub current : SeoFieldValues
  pub hint : Option Text
  pub primary_keyword : Option Text

-- `PUBLISHED`
unfoldable pub published : Text
unfolding codes
published = codes "Published"

abbrev has_any {ℓ} : {A : Type ℓ} → List A → Bool
has_any [] = false
has_any (x ∷ xs) = true

-- `!topic.parent && children.length > 0`
abbrev pub shows_children : TopicSource → Bool
shows_children t = elim t.parent [ none ↦ has_any t.children | some p ↦ false ]

abbrev is_page_content : ContentType → Bool
is_page_content page_content = true
is_page_content _ = false

abbrev is_post_content : ContentType → Bool
is_post_content post_content = true
is_post_content _ = false

abbrev pub shows_page : TopicSource → Bool
shows_page t = not (shows_children t) && is_page_content t.content_type

abbrev pub shows_posts : TopicSource → Bool
shows_posts t = not (shows_children t) && is_post_content t.content_type

abbrev pub is_published : Option Text → Bool
is_published none = false
is_published (some status) = text_eq status published

abbrev or_empty : Option Text → Text
or_empty none = []
or_empty (some t) = t

abbrev separator : Text
separator = b';' ∷ 32 ∷ []

-- A list with its heading, where it is not empty.
abbrev listed : Text → List Text → Text
listed heading [] = []
listed heading (t ∷ ts) = heading ++ join separator (t ∷ ts)

abbrev pub parent_titles : Option Text → Option (List Text)
parent_titles none = none
parent_titles (some title) = some (title ∷ [])

abbrev pub input : SeoEntityType → Text → Text → Option (List Text) → SeoMetadataInput
input type title text topics = record {
  title = title;
  text = text;
  topics = topics;
  entity_type = some type;
  fields = none;
  current = λ f. none;
  hint = none;
  primary_keyword = none;
  source_truncated = false;
}

module _ (parse : Text → Option Json) (string_of : Json → Text) (q : Queries) where
  -- The text of the page of a topic, where it is shown and published.
  abbrev pub topic_page_text : (shown : Bool) → Option TopicPage → Text
  topic_page_text shown none = []
  topic_page_text shown (some p) =
      if shown && is_published p.status then page_blocks_text parse string_of true p.content else []

  abbrev pub topic_titles : Text → TopicSource → List Text
  topic_titles id t =
      if shows_posts t then q.find_titles (record { topic = id; status = published }) else []

  abbrev pub topic_text : Text → TopicSource → Text
  topic_text id t = join (10 ∷ 10 ∷ []) (
      filter (λ part. truthy (trim part))
        (or_empty t.description
          ∷ topic_page_text (shows_page t) t.page
          ∷ (if shows_children t then codes "Підрозділи: " ++ join separator t.children else [])
          ∷ listed (codes "Статті розділу: ") (topic_titles id t)
          ∷ []))

  abbrev pub source_of_post : Option PostSource → Option SeoMetadataInput
  source_of_post none = none
  source_of_post (some p) =
      some (input post p.title (lexical_content_text parse string_of true p.content) p.topics)

  abbrev pub source_of_page : Option PageSource → Option SeoMetadataInput
  source_of_page none = none
  source_of_page (some p) =
      some (input page p.title (page_blocks_text parse string_of true p.content) none)

  abbrev pub source_of_topic : Text → Option TopicSource → Option SeoMetadataInput
  source_of_topic id none = none
  source_of_topic id (some t) =
      some (input topic t.title (topic_text id t) (parent_titles t.parent))

  -- `buildSource`; `none` is a `NotFoundException`.
  unfoldable pub build_source : SeoEntityType → Text → Option SeoMetadataInput
  build_source post id = source_of_post (q.find_post id)
  build_source page id = source_of_page (q.find_page id)
  build_source topic id = source_of_topic id (q.find_topic id)

-- `{ ...source, ...options }`
abbrev pub with_options : SeoGenerationOptions → SeoMetadataInput → SeoMetadataInput
with_options options source = record source {
  fields = options.fields;
  current = options.current;
  hint = options.hint;
  primary_keyword = options.primary_keyword;
}

-- The answers: no field was asked for, the material is missing, it has no text, or what the AI
-- service returns.
pub data Generation (A : Type 0) : Type 0 where
  nothing_asked not_found no_content : Generation A
  generated : A → Generation A

abbrev pub asks_nothing : Option (List SeoField) → Bool
asks_nothing none = false
asks_nothing (some []) = true
asks_nothing (some (f ∷ fs)) = false

module _ {A W : Type 0} (parse : Text → Option Json) (string_of : Json → Text) (q : Queries)
    (ai : SeoMetadataInput → W → A × W) where
  abbrev pub generate_from : SeoGenerationOptions → Option SeoMetadataInput → W → Generation A × W
  generate_from options none w = (not_found, w)
  generate_from options (some source) w =
      if truthy (trim source.text)
      then (let (answer, w') = ai (with_options options source) w in (generated answer, w'))
      else (no_content, w)

  -- `generate`
  unfoldable pub generate : SeoEntityType → Text → SeoGenerationOptions → W → Generation A × W
  unfolding build_source
  generate type id options w =
      if asks_nothing options.fields
      then (nothing_asked, w)
      else generate_from options (build_source parse string_of q type id) w
