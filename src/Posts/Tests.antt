-- ===== src/Posts/Tests.antt =====
-- Posts in memory.
use vethealth_backend.Base.{
  ◌≡◌, refl, ◌↔◌, true, false, none, some, List, [], ◌∷◌, codes, text_eq, arith, if◌then◌else◌,
}
use vethealth_backend.Repository.{Repository}
use vethealth_backend.Repository.Memory.{memory}
use vethealth_backend.Users.{writer, admin}
use vethealth_backend.Access.{Caller, num, str}
use vethealth_backend.Posts.{
  Post, PostWhere, published, draft, fits_post, has_id, by_id, is_published, is_owner, PostPatch,
  PostQuery, Surroundings, ok, err, not_found, forbidden, find_one, update, soft_delete, create,
  create_slug, list_where, wants_to_publish,
}
use vethealth_backend.Posts.Visibility.{
  IsVisible, find_one-IsVisible_iff, Matcher, IsMatcher, list_where-IsVisible,
}
use vethealth_backend.Posts.Requests.{Node, Response, fault, answered, intercept, patch_post}
use vethealth_backend.Posts.Mutation.{ReadsIds, update_publishes_nothing}

tests : Unit {0}
unfolding find_one update soft_delete create create_slug list_where text_eq codes
tests = tt

abbrev table : Repository Post PostWhere (List Post) fits_post has_id
table = memory fits_post has_id

abbrev news : Post
news = record {
  id = 1 ∷ [];
  title = 11 ∷ [];
  content = [];
  slug = 11 ∷ [];
  featured_image_url = none;
  status = published;
  author = some (7 ∷ []);
  topics = [];
  categories = [];
}

abbrev plan : Post
plan = record news { id = 2 ∷ []; title = 12 ∷ []; slug = 12 ∷ []; status = draft }

abbrev rows : List Post
rows = news ∷ plan ∷ []

-- The author of both posts, and somebody else.
abbrev ann : Caller
ann = record { id = 7 ∷ []; role = writer }

abbrev bob : Caller
bob = record { id = 8 ∷ []; role = writer }

abbrev boss : Caller
boss = record { id = 9 ∷ []; role = admin }

-- The text "1" is read as the number, here and in the table of statuses.
abbrev env : Surroundings
env = record {
  slugify = λ t. 99 ∷ t;
  number = λ t. if text_eq t (b'1' ∷ []) then some 1 else none;
  status_row = λ id.
      if wants_to_publish (λ t. if text_eq t (b'1' ∷ []) then some 1 else none) (some id)
      then published
      else draft;
}

abbrev patch : PostPatch
patch = record {
  id = 2 ∷ [];
  title = some (13 ∷ []);
  content = none;
  slug = none;
  featured_image_url = none;
  status = some (str (b'1' ∷ []));
  author = none;
  topics = none;
  categories = none;
}

update_tests :
    (update table env patch (some ann) rows ≡ (err forbidden, rows))
    × (update table env (record patch { status = none }) (some ann) rows
        ≡ (ok tt, news ∷ record plan { title = 13 ∷ []; slug = 99 ∷ 13 ∷ [] } ∷ []))
    × ((update table env patch (some boss) rows).0 ≡ ok tt)
    × (update table env patch none rows ≡ (err forbidden, rows))
    × (soft_delete table (1 ∷ []) (some ann) rows ≡ (ok tt, plan ∷ []))
    × (find_one table (by_id (2 ∷ [])) none rows ≡ err not_found)
    × (find_one table (by_id (2 ∷ [])) (some ann) rows ≡ ok plan)
unfolding tests
update_tests = (refl, refl, refl, refl, refl, refl, refl)

find_one-IsVisible_iff_example :
    ((p : Post)
      → (find_one table (by_id (2 ∷ [])) (some bob) rows ≡ ok p)
        ↔ ((table.find_one (by_id (2 ∷ [])) rows ≡ some p) × IsVisible (some bob) p))
    × ((p : Post)
        → table.find_one (by_id (2 ∷ [])) rows ≡ some p
        → ¬ IsVisible (some bob) p
        → find_one table (by_id (2 ∷ [])) (some bob) rows ≡ err not_found)
    × (table.find_one (by_id (2 ∷ [])) rows ≡ none
        → find_one table (by_id (2 ∷ [])) (some bob) rows ≡ err not_found)
find_one-IsVisible_iff_example = find_one-IsVisible_iff table (by_id (2 ∷ [])) (some bob) rows

-- A database that reads every text filter as satisfied.
abbrev matcher : Matcher
matcher = record {
  title_like = λ t p. true;
  author_firstname = λ t p. false;
  author_id = λ t p. is_owner (some (record { id = t; role = writer })) p;
  topic_slug = λ t p. true;
  category_slug = λ t p. true;
  status_name = λ t p. is_published p.status;
}

matcher-IsMatcher : IsMatcher matcher
matcher-IsMatcher = record { of_author = λ c p. refl; of_status = λ p. refl }

abbrev by_other : PostQuery
by_other = record {
  title = none;
  author = some (50 ∷ []);
  topic = none;
  category = none;
  status = some (codes "published");
}

list_where-IsVisible_example : IsVisible (some ann) plan
unfolding tests
list_where-IsVisible_example =
    list_where-IsVisible matcher matcher-IsMatcher by_other (some ann) plan refl

env-ReadsIds : ReadsIds table env
env-ReadsIds (num n) e = ground arith
env-ReadsIds (str t) e = ground arith

update_publishes_nothing_example :
    (p : Post) × (table.find_one (by_id (1 ∷ [])) rows ≡ some p) × (is_published p.status ≡ true)
unfolding tests
update_publishes_nothing_example =
    update_publishes_nothing table env patch (some ann) rows (1 ∷ []) news env-ReadsIds refl refl
      refl

-- The topic "20" has the parent "21".
abbrev nodes : List Node
nodes =
    record { id = 20 ∷ []; parent = some (21 ∷ []) } ∷ record { id = 21 ∷ []; parent = none } ∷ []

abbrev full : PostPatch
full = record patch { status = none; topics = some ((20 ∷ []) ∷ []); categories = some [] }

abbrev requested : PostPatch → Response × List Post
requested p = patch_post table env (λ q. true) nodes [] none p (some ann) rows

requests : Unit {0}
unfolding patch_post intercept update text_eq
requests = tt

request_tests :
    (requested full ≡ (
      answered (ok tt),
      news
          ∷ record plan {
            title = 13 ∷ [];
            slug = 99 ∷ 13 ∷ [];
            topics = (20 ∷ []) ∷ (21 ∷ []) ∷ [];
          }
          ∷ [],
    ))
    × (requested (record full { topics = none }) ≡ (fault, rows))
unfolding requests create_slug
request_tests = (refl, refl)
