-- ===== src/Seo/Entries.antt =====
-- `findEntries` of modules/seo/seo.service.ts: the materials with a public address, and their SEO
-- fields. The rows are those that `find` returns, with the relations that the query names.
use vethealth_backend.Base.{
  Bool, false, not, ◌&&◌, Option, none, some, List, ◌++◌, map, filter, any, Text, text_eq, truthy,
}
use vethealth_backend.Seo.{SeoFieldValues, no_fields}

-- `SeoEntityType`
pub data SeoEntityType : Type 0 where
  post page topic : SeoEntityType

-- The columns that a material shares with the others. `status` is the name of the status, and
-- `metadata` the row's fields, where there is one.
pub record Material : Type 0 where
  pub id : Text
  pub title : Text
  pub slug : Text
  pub status : Option Text
  pub metadata : Option SeoFieldValues

pub record PostRow : Type 0 where
  pub material : Material
  pub topic_slugs : List Text

-- `page` is the id of the page of the topic, and `parent` the slug of its parent.
pub record TopicRow : Type 0 where
  pub material : Material
  pub parent : Option Text
  pub page : Option Text

-- What an entry has by its type.
pub data Extra : Type 0 where
  no_extra : Extra
  topic_slugs : List Text → Extra
  parent_slug : Option Text → Extra

-- `SeoEntry`
pub record SeoEntry : Type 0 where
  pub type : SeoEntityType
  pub id : Text
  pub title : Text
  pub slug : Text
  pub status : Option Text
  pub metadata : SeoFieldValues
  pub extra : Extra

-- `pickSeoFields`
abbrev pub pick_seo_fields : Option SeoFieldValues → SeoFieldValues
pick_seo_fields none = no_fields
pick_seo_fields (some values) = values

-- `toEntry`
abbrev pub to_entry : SeoEntityType → Material → Extra → SeoEntry
to_entry type target extra = record {
  type = type;
  id = target.id;
  title = target.title;
  slug = target.slug;
  status = target.status;
  metadata = pick_seo_fields target.metadata;
  extra = extra;
}

abbrev pub topic_entry : TopicRow → SeoEntry
topic_entry t = to_entry topic t.material (parent_slug t.parent)

abbrev pub post_entry : PostRow → SeoEntry
post_entry p = to_entry post p.material (topic_slugs p.topic_slugs)

abbrev pub page_entry : Material → SeoEntry
page_entry p = to_entry page p no_extra

-- `topicPageIds.has(id)`: the set holds the ids of pages that are there and not empty.
abbrev pub is_page_of : Text → TopicRow → Bool
is_page_of id t = elim t.page [ none ↦ false | some k ↦ truthy k && text_eq k id ]

-- `findEntries`
unfoldable pub find_entries : List PostRow → List Material → List TopicRow → List SeoEntry
find_entries posts pages topics =
    map topic_entry topics
    ++ (map post_entry posts
        ++ map page_entry (filter (λ p. not (any (is_page_of p.id) topics)) pages))
