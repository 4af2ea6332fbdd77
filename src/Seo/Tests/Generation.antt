-- ===== src/Seo/Tests/Generation.antt =====
-- Two states of the materials that differ in what is not published.
use vethealth_backend.Base.{
  ◌≡◌, refl, true, false, Option, none, some, List, [], ◌∷◌, any, Text, codes, text_eq, is_space,
  join,
}
use vethealth_backend.Context.{prepare_seo_context, is_heading, cut}
use vethealth_backend.Context.Lexical.{
  Json, string, array, object, no_items, item, no_fields, field, lexical_text,
}
use vethealth_backend.Context.Pages.{is_urlish, page_text, page_blocks_text, lexical_content_text}
use vethealth_backend.Seo.{meta_keywords}
use vethealth_backend.Seo.{no_fields as no_values}
use vethealth_backend.Seo.Entries.{page, topic, Material, PostRow, TopicRow, find_entries}
use vethealth_backend.Seo.Listing.{lists}
use vethealth_backend.Seo.Prompts.{SeoMetadataInput, schema_fields, build_prompt}
use vethealth_backend.Seo.Sources.{
  Queries, page_content, SeoGenerationOptions, published, generate, generated, build_source,
}
use vethealth_backend.Seo.Publication.{AgreeOnPublished, generate-AgreeOnPublished, IsCalled}

tests : Unit {0}
unfolding prepare_seo_context is_heading cut lexical_text is_urlish page_blocks_text
    lexical_content_text schema_fields build_prompt published generate build_source find_entries
    codes text_eq is_space join
tests = tt

-- A topic with an unpublished page, of the given content, and no posts.
abbrev drafts : Text → Queries
drafts content = record {
  find_post = λ id. none;
  find_page = λ id. none;
  find_topic = λ id. some (record {
    title = codes "Cats";
    description = some (codes "Care");
    content_type = page_content;
    parent = none;
    children = [];
    page = some (record { status = some (codes "Draft"); content = some content });
  });
  find_titles = λ w. [];
}

abbrev parse : Text → Option Json
parse t = some (string t)

abbrev string_of : Json → Text
string_of x = []

abbrev options : SeoGenerationOptions
options = record { fields = none; current = no_values; hint = none; primary_keyword = none }

-- A provider that answers its text and counts its calls.
abbrev ai : SeoMetadataInput → List Text → Text × List Text
ai input calls = (input.text, input.text ∷ calls)

drafts-AgreeOnPublished : AgreeOnPublished (drafts (codes "a")) (drafts (codes "b"))
unfolding tests
drafts-AgreeOnPublished = record { topics = λ id. refl; titles = λ w e. refl }

generate-AgreeOnPublished_example :
    generate parse string_of (drafts (codes "a")) ai topic (codes "1") options []
    ≡ generate parse string_of (drafts (codes "b")) ai topic (codes "1") options []
generate-AgreeOnPublished_example =
    generate-AgreeOnPublished parse string_of ai (drafts (codes "a")) (drafts (codes "b"))
      (codes "1") options [] drafts-AgreeOnPublished

abbrev Called : Type 0
Called = IsCalled parse string_of ai (drafts []) topic (codes "1") options []

generation_tests :
    generate parse string_of (drafts []) ai topic (codes "1") options []
    ≡ (generated (codes "Care"), codes "Care" ∷ [])
unfolding tests
generation_tests = refl

abbrev material : Text → Material
material id = record {
  id = id;
  title = codes "A";
  slug = codes "a";
  status = none;
  metadata = none;
}

abbrev cats : TopicRow
cats = record { material = material (codes "1"); parent = none; page = some (codes "3") }

abbrev posts : List PostRow
posts = record { material = material (codes "2"); topic_slugs = [] } ∷ []

abbrev pages : List Material
pages = material (codes "3") ∷ material (codes "4") ∷ []

entries_tests :
    (any (lists page (codes "3")) (find_entries posts pages (cats ∷ [])) ≡ false)
    × (any (lists page (codes "4")) (find_entries posts pages (cats ∷ [])) ≡ true)
unfolding tests
entries_tests = (refl, refl)

abbrev keywords : SeoMetadataInput
keywords = record {
  title = codes "Cats";
  text = codes "Care";
  topics = none;
  entity_type = some page;
  fields = some (meta_keywords ∷ []);
  current = no_values;
  hint = none;
  primary_keyword = none;
  source_truncated = false;
}

-- A page with one block: a heading and a picture.
abbrev data_of : Text → Json
data_of url = object (
    field (codes "heading") (string (codes "Cats"))
      (field (codes "imageUrl") (string url) no_fields))

abbrev document : Json
document = object (
    field (codes "blocks")
      (array (item (object (field (codes "data") (data_of (codes "/a.png")) no_fields)) no_items))
      no_fields)

page_tests : page_text parse string_of true (some document) ≡ codes "Cats"
unfolding tests
page_tests = refl
