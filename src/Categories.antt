-- ===== src/Categories.antt =====
-- modules/categories/categories.service.ts and categories.controller.ts.
use vethealth_backend.Base.{
  Bool, true, false, not, ◌&&◌, ◌||◌, Option, none, some, List, any, Text, text_eq, truthy,
  if◌then◌else◌,
}
use vethealth_backend.Repository.{Repository}
use vethealth_backend.Users.{asks, given}
use vethealth_backend.Posts.{create_slug}
use vethealth_backend.Lists.{
  by_column, Listing, Pagination, TextCondition, containing, meets_text, PageQuery, paginated,
}

-- A row of `categories`; `topics` are the slugs of its topics.
pub record Category : Type 0 where
  pub id : Text
  pub name : Text
  pub slug : Text
  pub parent : Option Text
  pub topics : List Text

pub record CategoryWhere : Type 0 where
  pub id : Option Text
  pub name : Option TextCondition
  pub slug : Option Text
  pub only_roots : Bool
  pub topic : Option Text

abbrev is_root : Category → Bool
is_root c = elim c.parent [ none ↦ true | some p ↦ false ]

abbrev has_topic : Option Text → List Text → Bool
has_topic none topics = true
has_topic (some slug) topics = any (text_eq slug) topics

abbrev pub fits_category : (like : Text → Text → Bool) → CategoryWhere → Category → Bool
fits_category like w c =
    asks w.id c.id
    && (meets_text like w.name c.name
        && (asks w.slug c.slug && ((not w.only_roots || is_root c) && has_topic w.topic c.topics)))

abbrev pub has_id : Text → Category → Bool
has_id k c = text_eq c.id k

-- `CategoryQueryDto`
pub record CategoryQuery : Type 0 where
  pub name : Option Text
  pub slug : Option Text
  pub topic : Option Text
  pub show_all : Bool
  pub list : PageQuery

-- `UpdateCategoryDto`
pub record CategoryPatch : Type 0 where
  pub id : Text
  pub name : Option Text
  pub slug : Option Text
  pub parent : Option (Option Text)
  pub topics : Option (List Text)

-- `{ ...fields, topics: { slug: topic } }`
abbrev pub one_where : (id slug topic : Option Text) → CategoryWhere
one_where id slug topic = record {
  id = id;
  name = none;
  slug = slug;
  only_roots = false;
  topic = topic;
}

abbrev pub many_where : CategoryQuery → CategoryWhere
many_where q = record {
  id = none;
  name = containing q.name;
  slug = none;
  only_roots = not q.show_all;
  topic = q.topic;
}

abbrev pub patched : (slugify : Text → Text) → CategoryPatch → Category → Category
patched slugify p c = record c {
  name = given p.name c.name;
  slug = given (create_slug slugify p.slug p.name) c.slug;
  parent = given p.parent c.parent;
  topics = given p.topics c.topics;
}

pub data Answer : Type 0 where
  one : Category → Answer
  many : Pagination Category → Answer
  not_found : Answer

abbrev pub found : Option Category → Answer
found none = not_found
found (some c) = one c

module _ {S : Type 0} (like : Text → Text → Bool)
    (categories : Repository Category CategoryWhere S (fits_category like) has_id)
    (table : Listing Category CategoryWhere S (fits_category like) categories.rows) where
  -- `findOne`
  unfoldable pub find_one : (id slug : Option Text) → CategoryQuery → S → Answer
  find_one id slug q s = found (categories.find_one (one_where id slug q.topic) s)

  -- `findManyWithPagination`
  unfoldable pub find_many_with_pagination : CategoryQuery → S → Pagination Category
  find_many_with_pagination q s =
      paginated table (many_where q) (by_column q.list.order_by q.list.sort) q.list s

  -- `create`, with the slug that the hook makes
  unfoldable pub create : (slugify : Text → Text) → Category → S → S
  create slugify c s =
      categories.insert
        (record c { slug = given (create_slug slugify (some c.slug) (some c.name)) c.slug }) s

  -- `update`
  unfoldable pub update : (slugify : Text → Text) → CategoryPatch → S → S
  update slugify p s = categories.update p.id (patched slugify p) s

  -- `softDelete`
  unfoldable pub soft_delete : Text → S → S
  soft_delete k s = categories.remove (one_where (some k) none none) s

  -- `CategoriesController.getOne`
  unfoldable pub get_one : Text → CategoryQuery → S → Answer
  unfolding find_one
  get_one id q s = find_one (some id) none q s

  -- `CategoriesController.getMany`: an empty slug counts as none.
  abbrev get_by : (slug : Option Text) → CategoryQuery → S → Answer
  get_by none q s = many (find_many_with_pagination q s)
  get_by (some slug) q s =
      if truthy slug then find_one none (some slug) q s else many (find_many_with_pagination q s)

  unfoldable pub get_many : CategoryQuery → S → Answer
  unfolding find_one find_many_with_pagination
  get_many q s = get_by q.slug q s
