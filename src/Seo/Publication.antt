-- ===== src/Seo/Publication.antt =====
-- What is not published does not reach the AI service through a topic, and no text, no call.
use mathlib.Core.Option
use vethealth_backend.Base.{
  ◌≡◌, refl, ap, sym, ◌∙◌, Bool, Option, true, false, none, some, Text, truthy, trim, arith,
  if◌then◌else◌, Bool-cases, inl, inr,
}
use vethealth_backend.Context.Lexical.{Json}
use vethealth_backend.Seo.Entries.{topic, SeoEntityType}
use vethealth_backend.Seo.Prompts.{SeoMetadataInput}
use vethealth_backend.Seo.Sources.{
  shows_page, Queries, TopicSource, TopicPage, PostsWhere, SeoGenerationOptions, published,
  is_published, topic_page_text, topic_text, source_of_topic, build_source, generate, asks_nothing,
}

-- The page of a topic, without its content if it is not published.
abbrev pub hide_page : Option TopicPage → Option TopicPage
hide_page none = none
hide_page (some p) = some (if is_published p.status then p else record p { content = none })

abbrev pub hide : TopicSource → TopicSource
hide t = record t { page = hide_page t.page }

-- The same published pages of topics and the same titles of published posts.
pub record AgreeOnPublished (q r : Queries) : Type 0 where
  pub topics : (id : Text) → Option.map hide (q.find_topic id) ≡ Option.map hide (r.find_topic id)
  pub titles : (w : PostsWhere) → w.status ≡ published → q.find_titles w ≡ r.find_titles w

module _ (parse : Text → Option Json) (string_of : Json → Text) where
  topic_page_text-hide_page :
      (q : Queries) (shown : Bool) (p : Option TopicPage)
      → topic_page_text parse string_of q shown (hide_page p)
        ≡ topic_page_text parse string_of q shown p
  topic_page_text-hide_page q shown none = refl
  topic_page_text-hide_page q shown (some p) = elim (Bool-cases (is_published p.status)) [
    | inl e ↦ ground arith
    | inr e ↦ ground arith
  ]

  topic_text-AgreeOnPublished :
      (q r : Queries) (id : Text) (t : TopicSource)
      → AgreeOnPublished q r
      → topic_text parse string_of q id t ≡ topic_text parse string_of r id t
  topic_text-AgreeOnPublished q r id t h =
      rw (h.titles (record { topic = id; status = published }) refl) refl

  topic_text-hide :
      (q : Queries) (id : Text) (t : TopicSource)
      → topic_text parse string_of q id (hide t) ≡ topic_text parse string_of q id t
  topic_text-hide q id t = rw (topic_page_text-hide_page q (shows_page t) t.page) refl

  source_of_topic-hide :
      (q : Queries) (id : Text) (o : Option TopicSource)
      → source_of_topic parse string_of q id (Option.map hide o)
        ≡ source_of_topic parse string_of q id o
  source_of_topic-hide q id none = refl
  source_of_topic-hide q id (some t) = rw (topic_text-hide q id t) refl

  source_of_topic-AgreeOnPublished :
      (q r : Queries) (id : Text) (o : Option TopicSource)
      → AgreeOnPublished q r
      → source_of_topic parse string_of q id o ≡ source_of_topic parse string_of r id o
  source_of_topic-AgreeOnPublished q r id none h = refl
  source_of_topic-AgreeOnPublished q r id (some t) h =
      rw (topic_text-AgreeOnPublished q r id t h) refl

  build_source-AgreeOnPublished :
      (q r : Queries) (id : Text)
      → AgreeOnPublished q r
      → build_source parse string_of q topic id ≡ build_source parse string_of r topic id
  unfolding build_source
  build_source-AgreeOnPublished q r id h =
      sym (source_of_topic-hide q id (q.find_topic id))
      ∙ ap (source_of_topic parse string_of q id) (h.topics id)
      ∙ source_of_topic-hide q id (r.find_topic id)
      ∙ source_of_topic-AgreeOnPublished q r id (r.find_topic id) h

module _ {A W : Type 0} (parse : Text → Option Json) (string_of : Json → Text)
    (ai : SeoMetadataInput → W → A × W) where
  -- What is generated for a topic, and every call of the AI service on the way, is the same
  -- whatever the unpublished pages of topics hold and whatever posts are not published.
  pub generate-AgreeOnPublished :
      (q r : Queries) (id : Text) (options : SeoGenerationOptions) (w : W)
      → AgreeOnPublished q r
      → generate parse string_of q ai topic id options w
        ≡ generate parse string_of r ai topic id options w
  unfolding generate
  generate-AgreeOnPublished q r id options w h =
      rw (build_source-AgreeOnPublished parse string_of q r id h) refl

  module _ (q : Queries) (type : SeoEntityType) (id : Text) (options : SeoGenerationOptions)
      (w : W) where
    -- The AI service is called on a source with text.
    pub record IsCalled : Type 0 where
      pub source : SeoMetadataInput
      pub found : build_source parse string_of q type id ≡ some source
      pub has_text : truthy (trim source.text) ≡ true
      pub asks : asks_nothing options.fields ≡ false
