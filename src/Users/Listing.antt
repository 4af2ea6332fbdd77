-- ===== src/Users/Listing.antt =====
-- The list of users: `findManyWithPagination` of modules/users/users.service.ts, and
-- modules/users/utils/user-order.ts.
use vethealth_backend.Base.{
  Bool, true, false, ◌&&◌, List, Option, none, some, Text, codes, text_eq, if◌then◌else◌,
}
use vethealth_backend.Users.{User, RoleEnum, UserStatusEnum, asks}
use vethealth_backend.Lists.{
  Order, by_column, by_relation, Sort, Listing, Pagination, PageQuery, paginated,
}

-- The names that the database has for roles and statuses.
pub record Names : Type 0 where
  pub role_name : RoleEnum → Text
  pub status_name : UserStatusEnum → Text

-- The condition of a list; roles and statuses are asked for by name.
pub record UsersWhere : Type 0 where
  pub firstname : Option Text
  pub lastname : Option Text
  pub role : Option Text
  pub status : Option Text

-- A condition on a column that may be null
abbrev asks_option : Option Text → Option Text → Bool
asks_option none t = true
asks_option (some s) none = false
asks_option (some s) (some t) = text_eq t s

abbrev pub fits_users : Names → UsersWhere → User → Bool
fits_users names w u =
    asks w.firstname u.firstname
    && (asks_option w.lastname u.lastname
        && (asks w.role (names.role_name u.role) && asks w.status (names.status_name u.status)))

-- `UserQueryDto`
pub record UserQuery : Type 0 where
  pub condition : UsersWhere
  pub list : PageQuery

-- `userOrder`
abbrev pub user_order : Text → Sort → Order
user_order order_by sort =
    if text_eq order_by (codes "role")
    then by_relation (codes "role") (codes "name") sort
    else if text_eq order_by (codes "status")
    then by_relation (codes "status") (codes "name") sort
    else by_column order_by sort

module _ {S : Type 0} {rows : S → List User} (names : Names)
    (table : Listing User UsersWhere S (fits_users names) rows) where
  -- `findManyWithPagination`
  unfoldable pub find_many_with_pagination : UserQuery → S → Pagination User
  find_many_with_pagination q s =
      paginated table q.condition (user_order q.list.order_by q.list.sort) q.list s
