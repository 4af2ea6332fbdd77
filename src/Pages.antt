-- ===== src/Pages.antt =====
-- modules/pages/pages.service.ts and pages.controller.ts.
use vethealth_backend.Base.{
  Bool, ◌&&◌, Option, none, some, Text, codes, text_eq, truthy, if◌then◌else◌,
}
use vethealth_backend.Repository.{Repository}
use vethealth_backend.Users.{asks, given}
use vethealth_backend.Posts.{create_slug}
use vethealth_backend.Lists.{
  Order, by_column, by_relation, Sort, Listing, Pagination, PageQuery, paginated,
}

-- A row of `pages`; the status stands by its name.
pub record Page : Type 0 where
  pub id : Text
  pub title : Text
  pub slug : Text
  pub content : Text
  pub status : Text

pub record PageWhere : Type 0 where
  pub id : Option Text
  pub title : Option Text
  pub slug : Option Text
  pub status : Option Text

abbrev pub fits_page : PageWhere → Page → Bool
fits_page w p =
    asks w.id p.id && (asks w.title p.title && (asks w.slug p.slug && asks w.status p.status))

abbrev pub has_id : Text → Page → Bool
has_id k p = text_eq p.id k

-- `PageQueryDto`
pub record PagesQuery : Type 0 where
  pub title : Option Text
  pub slug : Option Text
  pub status : Option Text
  pub list : PageQuery

-- `UpdatePageDto`
pub record PagePatch : Type 0 where
  pub id : Text
  pub title : Option Text
  pub slug : Option Text
  pub content : Option Text
  pub status : Option Text

-- `postOrder` of pages/utils/page-order.ts
abbrev pub page_order : Text → Sort → Order
page_order order_by sort =
    if text_eq order_by (codes "status")
    then by_relation (codes "status") (codes "name") sort
    else by_column order_by sort

abbrev pub one_where : (id slug : Option Text) → PageWhere
one_where id slug = record { id = id; title = none; slug = slug; status = none }

abbrev pub many_where : PagesQuery → PageWhere
many_where q = record { id = none; title = q.title; slug = q.slug; status = q.status }

abbrev pub patched : (slugify : Text → Text) → PagePatch → Page → Page
patched slugify p row = record row {
  title = given p.title row.title;
  slug = given (create_slug slugify p.slug p.title) row.slug;
  content = given p.content row.content;
  status = given p.status row.status;
}

pub data Answer : Type 0 where
  one : Page → Answer
  many : Pagination Page → Answer
  not_found : Answer

abbrev pub found : Option Page → Answer
found none = not_found
found (some p) = one p

module _ {S : Type 0} (pages : Repository Page PageWhere S fits_page has_id)
    (table : Listing Page PageWhere S fits_page pages.rows) where
  -- `findOne`
  unfoldable pub find_one : (id slug : Option Text) → S → Answer
  find_one id slug s = found (pages.find_one (one_where id slug) s)

  -- `findManyWithPagination`
  unfoldable pub find_many_with_pagination : PagesQuery → S → Pagination Page
  find_many_with_pagination q s =
      paginated table (many_where q) (page_order q.list.order_by q.list.sort) q.list s

  -- `create`, with the slug that the hook makes
  unfoldable pub create : (slugify : Text → Text) → Page → S → S
  create slugify p s =
      pages.insert
        (record p { slug = given (create_slug slugify (some p.slug) (some p.title)) p.slug }) s

  -- `update`
  unfoldable pub update : (slugify : Text → Text) → PagePatch → S → S
  update slugify p s = pages.update p.id (patched slugify p) s

  -- `softDelete`
  unfoldable pub soft_delete : Text → S → S
  soft_delete k s = pages.remove (one_where (some k) none) s

  -- `PagesController.getOne`
  unfoldable pub get_one : Text → S → Answer
  unfolding find_one
  get_one id s = find_one (some id) none s

  abbrev get_by : (slug : Option Text) → PagesQuery → S → Answer
  get_by none q s = many (find_many_with_pagination q s)
  get_by (some slug) q s =
      if truthy slug then find_one none (some slug) s else many (find_many_with_pagination q s)

  -- `PagesController.getMany`: an empty slug counts as none.
  unfoldable pub get_many : PagesQuery → S → Answer
  unfolding find_one find_many_with_pagination
  get_many q s = get_by q.slug q s
