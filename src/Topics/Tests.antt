-- ===== src/Topics/Tests.antt =====
-- A table of two topics, in order already.
use vethealth_backend.Base.{
  Bool, ◌≡◌, refl, true, none, some, List, [], ◌∷◌, filter, length, page_items, Text, codes,
  text_eq,
}
use vethealth_backend.Repository.{Repository}
use vethealth_backend.Repository.Memory.{memory}
use vethealth_backend.Access.{get_topics_guard}
use vethealth_backend.Lists.{Order, Listing, asc, paginated}
use vethealth_backend.Topics.{
  Topic, TopicWhere, TopicQuery, fits_topic, has_id, topic_order, one, get_one, get_many, find_one,
  find_many_with_pagination,
}

tests : Unit {0}
unfolding get_one get_many find_one find_many_with_pagination paginated get_topics_guard codes
    text_eq
tests = tt

-- A pattern matches itself.
abbrev like : Text → Text → Bool
like p t = text_eq p t

abbrev topics : Repository Topic TopicWhere (List Topic) (fits_topic like) has_id
topics = memory (fits_topic like) has_id

abbrev table : Listing Topic TopicWhere (List Topic) (fits_topic like) topics.rows
table = record {
  sorted = λ o xs. xs;
  find_and_count = λ o s. (
    page_items o.skip o.limit (filter (fits_topic like o.condition) s),
    length (filter (fits_topic like o.condition) s),
  );
  sorted-all = λ o p xs. refl;
  find_and_count-items = λ o s. refl;
  find_and_count-count = λ o s. refl;
}

abbrev cats : Topic
cats = record {
  id = codes "1";
  title = codes "Cats";
  slug = codes "cats";
  description = none;
  status = codes "active";
  parent = none;
}

abbrev dogs : Topic
dogs = record cats { id = codes "2"; status = codes "inactive" }

abbrev query : TopicQuery
query = record {
  title = none;
  slug = none;
  status = some (codes "inactive");
  show_all = true;
  list = record { page = 1; size = 1; order_by = codes "status"; sort = asc; include = [] };
}

abbrev rows : List Topic
rows = cats ∷ dogs ∷ []

abbrev order : Order
order = topic_order (codes "status") asc

topic_tests :
    (get_one like topics table none
        (codes "1")
        (record query { status = some (codes "active") })
        rows
      ≡ one cats)
    × ((find_many_with_pagination like topics table query rows).items ≡ dogs ∷ [])
unfolding tests
topic_tests = (refl, refl)
