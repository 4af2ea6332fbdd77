-- ===== src/Search/Pages.antt =====
-- The pages of a search together.
use vethealth_backend.Base.{
  ceil_div, take-drop, take_all, ceil_div-covers, ℕ, zero, suc, ◌+◌, ◌-◌, ◌*◌, ◌<◌, ◌≡◌, refl, ap,
  sym, ◌∙◌, true, some, List, [], ◌++◌, length, take, drop, Text, truthy, trim, arith,
}
use vethealth_backend.Posts.{Post}
use vethealth_backend.Search.{Surroundings, paginate, matches_of, find_many_with_pagination}

-- The first pages of a size, so many of them, are the first items.
abbrev first_pages : ℕ → List Post → ℕ → List Post
first_pages size matches zero = []
first_pages size matches (suc n) =
    first_pages size matches n ++ (paginate (suc n) size matches).items

first_pages-take :
    (size : ℕ) (matches : List Post) (n : ℕ) → first_pages size matches n ≡ take (n * size) matches
first_pages-take size matches zero =
    let none_yet : 0 * size ≡ 0 = omega arith in sym (ap (λ i. take i matches) none_yet)
first_pages-take size matches (suc n) =
    let one : suc n - 1 ≡ n = omega arith in
    let next : suc n * size ≡ size + n * size = omega arith in
    let sum : suc n * size ≡ n * size + (suc n * size - n * size) = omega (arith, next) in
    ap (λ ys. ys ++ (paginate (suc n) size matches).items) (first_pages-take size matches n)
    ∙ ap (λ i. take (n * size) matches ++ take (suc n * size - i * size) (drop (i * size) matches))
        one
    ∙ take-drop (n * size) (suc n * size - n * size) (suc n * size) matches sum

-- The items of the first pages that the service returns for a query, so many of them.
abbrev pub served : Surroundings → (size : ℕ) → (query : Text) → ℕ → List Post
served env size query zero = []
served env size query (suc n) =
    served env size query n ++ (find_many_with_pagination env (suc n) size (some query)).items

served-first_pages :
    (env : Surroundings) (size : ℕ) (query : Text) (n : ℕ)
    → truthy (trim query) ≡ true
    → served env size query n ≡ first_pages size (matches_of env (trim query)) n
unfolding find_many_with_pagination
served-first_pages env size query zero h = refl
served-first_pages env size query (suc n) h = ground (arith, served-first_pages env size query n h)

-- The pages of a search are all matches, each once and in their order: the first pages, as many as
-- the number of pages that any page names, make up the candidates that pass the filter, and any page
-- names how many these are.
pub served-matches :
    (env : Surroundings) (size page : ℕ) (query : Text)
    → 0 < size
    → truthy (trim query) ≡ true
    → (served env size query (find_many_with_pagination env page size (some query)).total_pages
        ≡ matches_of env (trim query))
      × ((find_many_with_pagination env page size (some query)).count
          ≡ length (matches_of env (trim query)))
unfolding find_many_with_pagination
served-matches env size page query l h =
    let matches = matches_of env (trim query) in
    let total = ceil_div (length matches) size in
    let all : served env size query total ≡ matches =
      served-first_pages env size query total h
      ∙ first_pages-take size matches total
      ∙ take_all (total * size) matches (ceil_div-covers (length matches) size l) in
    (ground (arith, all), ground arith)
