-- ===== src/Lists.antt =====
-- What the lists of topics, categories, pages and users share (modules/*/*.service.ts): the calls
-- of `findAndCount`, and the page that a service makes of its answer.
pub mod Paging
use vethealth_backend.Base.{
  ℕ, ◌-◌, ◌*◌, ◌≡◌, Bool, true, Option, none, some, List, [], ◌∷◌, ◌++◌, filter, all, text_eq,
  length, take, drop, Text, truthy, ceil_div, page_items, if◌then◌else◌,
}

-- `FindOptionsOrderValue`
pub data Sort : Type 0 where
  asc desc : Sort

-- An order by a column, or by the column of a relation.
pub data Order : Type 0 where
  by_column : (column : Text) → Sort → Order
  by_relation : (relation column : Text) → Sort → Order

-- `findAndCount({ where, skip, take, order, relations })`
pub record FindOptions (W : Type 0) : Type 0 where
  pub condition : W
  pub skip : ℕ
  pub limit : ℕ
  pub order : Order
  pub relations : List Text

-- What a service uses of a repository to list its rows, as TypeORM documents it: the rows that
-- meet the condition in the order, from one on and so many, and the number of all that meet it.
-- To sort rows changes none of them.
pub record Listing (R W S : Type 0) (fits : W → R → Bool) (rows : S → List R) : Type 0 where
  pub sorted : Order → List R → List R
  pub find_and_count : FindOptions W → S → List R × ℕ
  pub sorted-all : (o : Order) (p : R → Bool) (xs : List R) → all p (sorted o xs) ≡ all p xs
  pub find_and_count-items :
      (o : FindOptions W) (s : S)
      → (find_and_count o s).0
        ≡ page_items o.skip o.limit (sorted o.order (filter (fits o.condition) (rows s)))
  pub find_and_count-count :
      (o : FindOptions W) (s : S)
      → (find_and_count o s).1 ≡ length (sorted o.order (filter (fits o.condition) (rows s)))

-- `PaginationType`
pub record Pagination (R : Type 0) : Type 0 where
  pub items : List R
  pub count : ℕ
  pub current_page : ℕ
  pub total_pages : ℕ

-- A condition on a text: `Like`, or the text itself.
pub data TextCondition : Type 0 where
  equals like_pattern : Text → TextCondition

-- `title && Like(`%${title}%`)`
abbrev pub containing : Option Text → Option TextCondition
containing none = none
containing (some t) =
    if truthy t then some (like_pattern (b'%' ∷ (t ++ (b'%' ∷ [])))) else some (equals t)

-- How the database reads such a condition; `like` is its reading of a pattern.
abbrev pub meets_text : (like : Text → Text → Bool) → Option TextCondition → Text → Bool
meets_text like none t = true
meets_text like (some (equals s)) t = text_eq t s
meets_text like (some (like_pattern p)) t = like p t

-- `PaginationQueryDto`, with the order and the relations of a list.
pub record PageQuery : Type 0 where
  pub page : ℕ
  pub size : ℕ
  pub order_by : Text
  pub sort : Sort
  pub include : List Text

module _ {R W S : Type 0} {fits : W → R → Bool} {rows : S → List R}
    (table : Listing R W S fits rows) where
  -- `findManyWithPagination`, by its condition and its order.
  unfoldable pub paginated : W → Order → PageQuery → S → Pagination R
  paginated w order q s =
      let (items, count) =
        table.find_and_count
          (record {
            condition = w;
            skip = (q.page - 1) * q.size;
            limit = q.size;
            order = order;
            relations = q.include;
          })
          s in
      record {
        items = items;
        count = count;
        current_page = q.page;
        total_pages = ceil_div count q.size;
      }
