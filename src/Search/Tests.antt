-- ===== src/Search/Tests.antt =====
-- Three posts, two of which match.
use vethealth_backend.Base.{
  ◌≡◌, refl, none, some, [], ◌∷◌, length, Text, codes, text_eq, trim, is_space, arith,
}
use vethealth_backend.Posts.{Post, published}
use vethealth_backend.Search.{Surroundings, pattern_of, matches_of, find_many_with_pagination}
use vethealth_backend.Search.Pages.{served, served-matches}

tests : Unit {0}
unfolding find_many_with_pagination codes text_eq is_space
tests = tt

abbrev post : Text → Post
post title = record {
  id = [];
  title = title;
  content = [];
  slug = [];
  featured_image_url = none;
  status = published;
  author = none;
  topics = [];
  categories = [];
}

-- The database lists all posts as candidates.
abbrev env : Surroundings
env = record {
  lower = λ t. t;
  parse = λ t. none;
  string_of = λ j. [];
  candidates = λ p. post (codes "a tick") ∷ post (codes "a cat") ∷ post (codes "ticks") ∷ [];
}

search_tests :
    ((find_many_with_pagination env 2 1 (some (codes " tick "))).items ≡ post (codes "ticks") ∷ [])
    × ((find_many_with_pagination env 1 1 (some (codes " tick "))).total_pages ≡ 2)
    × ((find_many_with_pagination env 1 10 none).items ≡ [])
    × (pattern_of (codes "5%") ≡ codes "%5\\%%")
unfolding tests
search_tests = (refl, refl, refl, refl)

served-matches_example :
    (served env 1
        (codes "tick")
        (find_many_with_pagination env 2 1 (some (codes "tick"))).total_pages
      ≡ matches_of env (trim (codes "tick")))
    × ((find_many_with_pagination env 2 1 (some (codes "tick"))).count
        ≡ length (matches_of env (trim (codes "tick"))))
unfolding tests
served-matches_example = served-matches env 1 2 (codes "tick") (omega arith) refl
