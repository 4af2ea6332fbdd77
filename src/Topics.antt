-- ===== src/Topics.antt =====
-- modules/topics/topics.service.ts and topics.controller.ts. The relations that `include` names are left
-- out of the answers.
pub mod Visibility
mod Tests
use vethealth_backend.Base.{
  Bool, true, false, not, ◌&&◌, ◌||◌, Option, none, some, List, Text, codes, text_eq, truthy,
  if◌then◌else◌,
}
use vethealth_backend.Repository.{Repository}
use vethealth_backend.Users.{asks, given}
use vethealth_backend.Access.{Caller, Verdict, allow, get_topics_guard}
use vethealth_backend.Posts.{create_slug}
use vethealth_backend.Lists.{
  Order, by_column, by_relation, Sort, Listing, Pagination, TextCondition, containing, meets_text,
  PageQuery, paginated,
}

-- A row of `topics`; the status stands by its name, the related rows by their ids.
pub record Topic : Type 0 where
  pub id : Text
  pub title : Text
  pub slug : Text
  pub description : Option Text
  pub status : Text
  pub parent : Option Text

-- The condition of a search; `only_roots` is `parent: IsNull()`.
pub record TopicWhere : Type 0 where
  pub id : Option Text
  pub title : Option TextCondition
  pub slug : Option Text
  pub only_roots : Bool
  pub status : Option Text

abbrev is_root : Topic → Bool
is_root t = elim t.parent [ none ↦ true | some p ↦ false ]

abbrev pub fits_topic : (Text → Text → Bool) → TopicWhere → Topic → Bool
fits_topic like w t =
    asks w.id t.id
    && (meets_text like w.title t.title
        && (asks w.slug t.slug && ((not w.only_roots || is_root t) && asks w.status t.status)))

abbrev pub has_id : Text → Topic → Bool
has_id k t = text_eq t.id k

-- `TopicQueryDto`
pub record TopicQuery : Type 0 where
  pub title : Option Text
  pub slug : Option Text
  pub status : Option Text
  pub show_all : Bool
  pub list : PageQuery

-- `UpdateTopicDto`
pub record TopicPatch : Type 0 where
  pub id : Text
  pub title : Option Text
  pub slug : Option Text
  pub description : Option Text
  pub status : Option Text
  pub parent : Option (Option Text)

-- `topicOrder`
abbrev pub topic_order : Text → Sort → Order
topic_order order_by sort =
    if text_eq order_by (codes "status")
    then by_relation (codes "status") (codes "name") sort
    else by_column order_by sort

abbrev pub by_topic_id : Text → TopicWhere
by_topic_id k = record { id = some k; title = none; slug = none; only_roots = false; status = none }

-- `{ ...fields, status: { name: status } }`
abbrev pub one_where : (id slug status : Option Text) → TopicWhere
one_where id slug status = record {
  id = id;
  title = none;
  slug = slug;
  only_roots = false;
  status = status;
}

abbrev pub many_where : TopicQuery → TopicWhere
many_where q = record {
  id = none;
  title = containing q.title;
  slug = q.slug;
  only_roots = not q.show_all;
  status = q.status;
}

abbrev given_option : Option Text → Option Text → Option Text
given_option none old = old
given_option (some new) old = some new

-- A patch written over a row, the slug as the hook `createSlug` leaves it.
abbrev pub patched : (slugify : Text → Text) → TopicPatch → Topic → Topic
patched slugify p t = record t {
  title = given p.title t.title;
  slug = given (create_slug slugify p.slug p.title) t.slug;
  description = given_option p.description t.description;
  status = given p.status t.status;
  parent = given p.parent t.parent;
}

-- What a handler answers: a topic, a page of topics, `NotFoundException`, or what a guard refuses.
pub data Answer : Type 0 where
  one : Topic → Answer
  many : Pagination Topic → Answer
  not_found : Answer
  refused : Verdict → Answer

abbrev pub found : Option Topic → Answer
found none = not_found
found (some t) = one t

module _ {S : Type 0} (like : Text → Text → Bool)
    (topics : Repository Topic TopicWhere S (fits_topic like) has_id)
    (table : Listing Topic TopicWhere S (fits_topic like) topics.rows) where
  -- `findOne`
  unfoldable pub find_one : (id slug : Option Text) → TopicQuery → S → Answer
  find_one id slug q s = found (topics.find_one (one_where id slug q.status) s)

  -- `findManyWithPagination`
  unfoldable pub find_many_with_pagination : TopicQuery → S → Pagination Topic
  find_many_with_pagination q s =
      paginated table (many_where q) (topic_order q.list.order_by q.list.sort) q.list s

  -- `create`, with the slug that the hook makes
  unfoldable pub create : (slugify : Text → Text) → Topic → S → S
  create slugify t s =
      topics.insert
        (record t { slug = given (create_slug slugify (some t.slug) (some t.title)) t.slug }) s

  -- `update`
  unfoldable pub update : (slugify : Text → Text) → TopicPatch → S → S
  update slugify p s = topics.update p.id (patched slugify p) s

  -- `softDelete`
  unfoldable pub soft_delete : Text → S → S
  soft_delete k s = topics.remove (by_topic_id k) s

  -- A handler behind `GetTopicsGuard`
  abbrev guarded : Verdict → Answer → Answer
  guarded allow answer = answer
  guarded verdict answer = refused verdict

  -- `TopicsController.getOne`
  unfoldable pub get_one : Option Caller → Text → TopicQuery → S → Answer
  unfolding find_one
  get_one user id q s = guarded (get_topics_guard q.status user) (find_one (some id) none q s)

  abbrev get_by : (slug : Option Text) → TopicQuery → S → Answer
  get_by none q s = many (find_many_with_pagination q s)
  get_by (some slug) q s =
      if truthy slug then find_one none (some slug) q s else many (find_many_with_pagination q s)

  -- `TopicsController.getMany`
  unfoldable pub get_many : Option Caller → TopicQuery → S → Answer
  unfolding find_one find_many_with_pagination
  get_many user q s = guarded (get_topics_guard q.status user) (get_by q.slug q s)
