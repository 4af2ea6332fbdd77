-- ===== src/Lists/Paging.antt =====
-- The pages of a list together.
use vethealth_backend.Base.{
  ℕ, zero, suc, ◌<◌, ◌≡◌, refl, ap, ◌∙◌, Bool, List, [], ◌++◌, filter, length, first_pages,
  first_pages_all, ceil_div,
}
use vethealth_backend.Lists.{Order, Listing, PageQuery, Pagination, paginated}

module _ {R W S : Type 0} {fits : W → R → Bool} {rows : S → List R}
    (table : Listing R W S fits rows) (w : W) (order : Order) (q : PageQuery) (s : S) where
  abbrev pub page_of : ℕ → Pagination R
  page_of n = paginated table w order (record q { page = n }) s

  -- The items of the first pages, so many of them.
  abbrev pub served : ℕ → List R
  served zero = []
  served (suc n) = served n ++ (page_of (suc n)).items

  -- The rows that meet the condition, in the order that was asked for.
  abbrev pub matches : List R
  matches = table.sorted order (filter (fits w) (rows s))

  served-first_pages : (n : ℕ) → served n ≡ first_pages q.size matches n
  unfolding paginated
  served-first_pages zero = refl
  served-first_pages (suc n) = rw (served-first_pages n, table.find_and_count-items _ s) refl

  -- The pages of a list are the rows that meet its condition, each once and in the order that was
  -- asked for: the first pages, as many as any page says that there are, make them up, and any page
  -- says how many rows these are. The size is not 0.
  pub served-matches_all :
      (n : ℕ)
      → 0 < q.size
      → (served (page_of n).total_pages ≡ matches) × ((page_of n).count ≡ length matches)
  unfolding paginated
  served-matches_all n l = (
    ap (λ c. served (ceil_div c q.size)) (table.find_and_count-count _ s)
        ∙ served-first_pages (ceil_div (length matches) q.size)
        ∙ first_pages_all q.size matches l,
    table.find_and_count-count _ s,
  )
