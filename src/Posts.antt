-- ===== src/Posts.antt =====
-- modules/posts/posts.service.ts and the slug hook of modules/posts/entities/post.entity.ts.
pub mod Visibility
pub mod Mutation
pub mod Requests
pub mod Parents
mod Tests
use vethealth_backend.Base.{
  ℕ, ◌+◌, ◌-◌, ◌*◌, ◌/◌, Bool, true, false, not, ◌&&◌, ◌||◌, Option, none, some, List, [], ◌∷◌,
  ◌++◌, Text, codes, text_eq, truthy, ◌==◌, if◌then◌else◌,
}
use vethealth_backend.Repository.{Repository}
use vethealth_backend.Users.{asks, given}
use vethealth_backend.Access.{Caller, JsId, num, str, caller_is_admin}

-- The rows of `post_statuses`, as the seed writes them.
pub data PostStatusEnum : Type 0 where
  published draft on_review : PostStatusEnum

-- `post.status.name`
abbrev pub name : PostStatusEnum → Text
name published = codes "Published"
name draft = codes "Draft"
name on_review = codes "OnReview"

abbrev pub is_published : PostStatusEnum → Bool
is_published published = true
is_published _ = false

-- A row of `posts`; the author and the related topics and categories stand by their ids.
pub record Post : Type 0 where
  pub id : Text
  pub title : Text
  pub content : Text
  pub slug : Text
  pub featured_image_url : Option Text
  pub status : PostStatusEnum
  pub author : Option Text
  pub topics : List Text
  pub categories : List Text

-- The condition of a search for one post.
pub record PostWhere : Type 0 where
  pub id : Option Text
  pub slug : Option Text

abbrev pub fits_post : PostWhere → Post → Bool
fits_post w p = asks w.id p.id && asks w.slug p.slug

abbrev pub has_id : Text → Post → Bool
has_id k p = text_eq p.id k

abbrev pub by_id : Text → PostWhere
by_id k = record { id = some k; slug = none }

-- `UpdatePostDto`; `none` is a field that is not given.
pub record PostPatch : Type 0 where
  pub id : Text
  pub title : Option Text
  pub content : Option Text
  pub slug : Option Text
  pub featured_image_url : Option Text
  pub status : Option JsId
  pub author : Option Text
  pub topics : Option (List Text)
  pub categories : Option (List Text)

pub data Error : Type 0 where
  not_found forbidden : Error

pub data Result {ℓ} (A : Type ℓ) : Type ℓ where
  ok : A → Result A
  err : Error → Result A

-- `!!user && user.id === post.author?.id`
abbrev pub is_owner : Option Caller → Post → Bool
is_owner none p = false
is_owner (some c) p = elim p.author [ none ↦ false | some a ↦ text_eq c.id a ]

-- `this.slug || this.title`
abbrev slug_source : Option Text → Option Text → Option Text
slug_source (some s) title = if truthy s then some s else title
slug_source none title = title

-- The hook `createSlug`; `slugify` is the package of that name.
unfoldable pub create_slug : (Text → Text) → (slug title : Option Text) → Option Text
create_slug slugify slug title = elim (slug_source slug title) [
  | none ↦ slug
  | some t ↦ if truthy t then some (slugify t) else slug
]

-- What `findOne` answers for the row that it found.
abbrev pub seen : Option Caller → Option Post → Result Post
seen user none = err not_found
seen user (some p) =
    if not (is_published p.status) && (not (caller_is_admin user) && not (is_owner user p))
    then err not_found
    else ok p

-- `assertCanMutate` for the row that it found
abbrev pub mutable : Option Caller → Option Post → Result Post
mutable user none = err not_found
mutable user (some p) =
    if not (caller_is_admin user) && not (is_owner user p) then err forbidden else ok p

-- `Number(id) === 1`, for `PostStatusEnum.Published`; `number` reads a string, and is `none` where
-- the result is no natural number.
abbrev pub wants_to_publish : (Text → Option ℕ) → Option JsId → Bool
wants_to_publish number none = false
wants_to_publish number (some (num n)) = n == 1
wants_to_publish number (some (str t)) = elim (number t) [ none ↦ false | some n ↦ n == 1 ]

-- What is not the program's own: `slugify`, JavaScript's `Number`, and the row of
-- `post_statuses` that the database finds for an id.
pub record Surroundings : Type 0 where
  pub slugify : Text → Text
  pub number : Text → Option ℕ
  pub status_row : JsId → PostStatusEnum

abbrev given_status : (JsId → PostStatusEnum) → Option JsId → PostStatusEnum → PostStatusEnum
given_status row none old = old
given_status row (some id) old = row id

abbrev given_option : Option Text → Option Text → Option Text
given_option none old = old
given_option (some new) old = some new

-- A patch written over a row.
abbrev pub patched : Surroundings → PostPatch → Post → Post
patched env p row = record row {
  title = given p.title row.title;
  content = given p.content row.content;
  slug = given (create_slug env.slugify p.slug p.title) row.slug;
  featured_image_url = given_option p.featured_image_url row.featured_image_url;
  status = given_status env.status_row p.status row.status;
  author = given_option p.author row.author;
  topics = given p.topics row.topics;
  categories = given p.categories row.categories;
}

module _ {S : Type 0} (posts : Repository Post PostWhere S fits_post has_id) where
  -- `create`: a new post, with the slug that the hook makes.
  unfoldable pub create : (Text → Text) → Post → S → S
  create slugify p s =
      posts.insert
        (record p { slug = given (create_slug slugify (some p.slug) (some p.title)) p.slug }) s

  unfoldable pub find_one : PostWhere → Option Caller → S → Result Post
  find_one w user s = seen user (posts.find_one w s)

  unfoldable pub update : Surroundings → PostPatch → Option Caller → S → Result (Unit {0}) × S
  update env p user s = elim (mutable user (posts.find_one (by_id p.id) s)) [
    | err e ↦ (err e, s)
    | ok post ↦
        if wants_to_publish env.number p.status
          && (not (is_published post.status) && not (caller_is_admin user))
        then (err forbidden, s)
        else (ok tt, posts.update p.id (patched env p) s)
  ]

  unfoldable pub soft_delete : Text → Option Caller → S → Result (Unit {0}) × S
  soft_delete k user s = elim (mutable user (posts.find_one (by_id k) s)) [
    | err e ↦ (err e, s)
    | ok post ↦ (ok tt, posts.remove (by_id k) s)
  ]

-- The query of a list of posts.
pub record PostQuery : Type 0 where
  pub title : Option Text
  pub author : Option Text
  pub topic : Option Text
  pub category : Option Text
  pub status : Option Text

-- One alternative of the `where` of a list: `LIKE` patterns and values, `none` where there is no
-- condition.
pub record ListWhere : Type 0 where
  pub title_like : Option Text
  pub author_firstname : Option Text
  pub author_id : Option Text
  pub topic_slug : Option Text
  pub category_slug : Option Text
  pub status_name : Option Text

abbrev percent : Text
percent = b'%' ∷ []

-- `title && Like(`%${title}%`)`: an empty title is no condition.
abbrev like_title : Option Text → Option Text
like_title none = none
like_title (some []) = none
like_title (some (c ∷ t)) = some (percent ++ ((c ∷ t) ++ percent))

abbrev common : PostQuery → ListWhere
common q = record {
  title_like = like_title q.title;
  author_firstname = q.author;
  author_id = none;
  topic_slug = q.topic;
  category_slug = q.category;
  status_name = none;
}

-- `status === 'all' ? undefined : { name: status || 'Published' }`
abbrev admin_status : Option Text → Option Text
admin_status none = some (codes "Published")
admin_status (some t) =
    if text_eq t (codes "all") then none else some (if truthy t then t else codes "Published")

-- The `where` of `findManyWithPagination`
unfoldable pub list_where : PostQuery → Option Caller → List ListWhere
list_where q none = record (common q) { status_name = some (codes "Published") } ∷ []
list_where q (some c) =
    if caller_is_admin (some c)
    then record (common q) { status_name = admin_status q.status } ∷ []
    else record (common q) { status_name = some (codes "Published") }
      ∷ record (common q) { author_firstname = none; author_id = some c.id }
      ∷ []
