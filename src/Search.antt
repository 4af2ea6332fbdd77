-- ===== src/Search.antt =====
-- modules/search/search.service.ts: the public search over posts.
pub mod Pages
pub mod Patterns
mod Tests
use vethealth_backend.Base.{
  ceil_div, ℕ, ◌+◌, ◌-◌, ◌*◌, ◌/◌, Bool, true, false, not, ◌||◌, Option, none, some, List, [], ◌∷◌,
  ◌++◌, length, take, drop, filter, Text, truthy, trim, ◌==◌, if◌then◌else◌,
}
use vethealth_backend.Posts.{Post}
use vethealth_backend.Context.Lexical.{Json, extract_lexical_text}

-- `PaginationType`
pub record PaginationType : Type 0 where
  pub items : List Post
  pub count : ℕ
  pub current_page : ℕ
  pub total_pages : ℕ

-- What is not the program's own: `toLowerCase`, `JSON.parse`, which may fail, `String` on what is
-- no string, and the database, which lists the published posts whose title or content is like the
-- pattern, latest first.
pub record Surroundings : Type 0 where
  pub lower : Text → Text
  pub parse : Text → Option Json
  pub string_of : Json → Text
  pub candidates : (pattern : Text) → List Post

-- `s.startsWith(q)`
abbrev pub starts_with : (q s : Text) → Bool
starts_with [] s = true
starts_with (c ∷ q) [] = false
starts_with (c ∷ q) (d ∷ s) = if d == c then starts_with q s else false

-- `s.includes(q)`
abbrev pub includes : (q s : Text) → Bool
includes q [] = starts_with q []
includes q (c ∷ s) = starts_with q (c ∷ s) || includes q s

-- `query.replace(/[\\%_]/g, '\\$&')`
abbrev pub escape : Text → Text
escape [] = []
escape (c ∷ s) = if c == 92 || (c == b'%' || c == b'_') then 92 ∷ c ∷ escape s else c ∷ escape s

abbrev pub pattern_of : Text → Text
pattern_of query = b'%' ∷ (escape query ++ (b'%' ∷ []))

abbrev parsed_or : (Json → Text) → Text → Option Json → Text
parsed_or string_of content none = content
parsed_or string_of content (some json) = extract_lexical_text string_of json

abbrev pub visible_text : Surroundings → Text → Text
visible_text env content =
    if truthy content then parsed_or env.string_of content (env.parse content) else []

-- The test of the filter for one post
abbrev pub is_match : Surroundings → (query : Text) → Post → Bool
is_match env query p =
    let needle = env.lower query in
    includes needle (env.lower p.title) || includes needle (env.lower (visible_text env p.content))

abbrev pub paginate : ℕ → ℕ → List Post → PaginationType
paginate page size matches = record {
  items = take (page * size - (page - 1) * size) (drop ((page - 1) * size) matches);
  count = length matches;
  current_page = page;
  total_pages = ceil_div (length matches) size;
}

abbrev pub matches_of : Surroundings → (query : Text) → List Post
matches_of env query = filter (is_match env query) (env.candidates (pattern_of query))

abbrev search_trimmed : Surroundings → ℕ → ℕ → Text → PaginationType
search_trimmed env page size query =
    if truthy query
    then paginate page size (matches_of env query)
    else record { items = []; count = 0; current_page = page; total_pages = 0 }

-- `findManyWithPagination`; a query that is not given is the empty one.
unfoldable pub find_many_with_pagination :
    Surroundings → (page size : ℕ) → (query : Option Text) → PaginationType
find_many_with_pagination env page size none = search_trimmed env page size []
find_many_with_pagination env page size (some query) = search_trimmed env page size (trim query)
