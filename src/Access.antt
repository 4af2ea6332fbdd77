-- ===== src/Access.antt =====
-- Who may do what: the global guards (modules/auth/guards), and the guards of single routes
-- (modules/users/guards, modules/topics/guards, modules/posts/guards).
pub mod Changes
pub mod Routes
pub mod Serialization
pub mod Creation
mod Tests
use vethealth_backend.Base.{
  ℕ, Bool, true, false, not, ◌&&◌, ◌||◌, Option, none, some, List, [], ◌∷◌, Text, codes, text_eq,
  is_some, any, ◌==◌, if◌then◌else◌,
}
use vethealth_backend.Repository.{Repository}
use vethealth_backend.Users
use vethealth_backend.Users.{
  RoleEnum, super_admin, admin, moder, writer, is_super_admin, is_admin, User, UserWhere, fits_user,
}

-- The payload of an access token, as the guards read it.
pub record Caller : Type 0 where
  pub id : Text
  pub role : RoleEnum

-- `canActivate` returns true, returns false or raises.
pub data Verdict : Type 0 where
  allow deny forbidden not_found unauthorized fault : Verdict

abbrev pub role_eq : RoleEnum → RoleEnum → Bool
role_eq super_admin super_admin = true
role_eq admin admin = true
role_eq moder moder = true
role_eq writer writer = true
role_eq _ _ = false

-- `user?.role?.id === SuperAdmin || user?.role?.id === Admin`
abbrev pub caller_is_admin : Option Caller → Bool
caller_is_admin none = false
caller_is_admin (some c) = is_admin c.role

abbrev pub caller_is_super_admin : Option Caller → Bool
caller_is_super_admin none = false
caller_is_super_admin (some c) = is_super_admin c.role

-- `a === b` on strings that may be undefined
abbrev pub same : Option Text → Option Text → Bool
same none none = true
same (some a) (some b) = text_eq a b
same _ _ = false

abbrev pub caller_id : Option Caller → Option Text
caller_id none = none
caller_id (some c) = some c.id

-- An id in a request body, before validation: a number or a string.
pub data JsId : Type 0 where
  num : ℕ → JsId
  str : Text → JsId

-- `id === '1'`, which is `RoleEnum.SuperAdmin`
abbrev pub is_super_admin_id : Option JsId → Bool
is_super_admin_id (some (str t)) = text_eq t (codes "1")
is_super_admin_id _ = false

-- The validator `IsNotSuperAdmin`: `value?.id?.toString() !== '1'`.
unfoldable pub is_not_super_admin : Option JsId → Bool
is_not_super_admin none = true
is_not_super_admin (some (num n)) = not (n == 1)
is_not_super_admin (some (str t)) = not (text_eq t (codes "1"))

-- The body of a request to change a user. `role` is there if the field is truthy, with its id if it
-- has one.
pub record UpdateBody : Type 0 where
  pub id : Option Text
  pub role : Option (Option JsId)
  pub has_status : Bool

abbrev pub role_id : Option (Option JsId) → Option JsId
role_id none = none
role_id (some id) = id

abbrev pub changes_rank : UpdateBody → Bool
changes_rank body = is_some body.role || body.has_status

-- `AuthDataGuard` on what the route is marked with and what passport found; `failed` is an error of
-- the strategy. The result has the user of the request.
pub data Passport : Type 0 where
  failed absent : Passport
  present : Caller → Passport

abbrev user_of : Passport → Option Caller
user_of (present c) = some c
user_of _ = none

pub data Entry : Type 0 where
  refused : Entry
  entered : Option Caller → Entry

-- `handleRequest`
abbrev handle_request : Bool → Passport → Entry
handle_request true p = entered (user_of p)
handle_request false (present c) = entered (some c)
handle_request false _ = refused

unfoldable pub auth_data_guard : (is_public is_optional : Bool) → Passport → Entry
auth_data_guard true is_optional p = entered none
auth_data_guard false is_optional p = handle_request is_optional p

-- `RolesGuard`
abbrev includes_role : List RoleEnum → Option Caller → Bool
includes_role roles none = false
includes_role roles (some c) = any (role_eq c.role) roles

unfoldable pub roles_guard : Option (List RoleEnum) → Option Caller → Bool
roles_guard none user = true
roles_guard (some roles) user = includes_role roles user

-- `GetTopicsGuard`
unfoldable pub get_topics_guard : Option Text → Option Caller → Verdict
get_topics_guard status user =
    if same status (some (codes "inactive")) && not (caller_is_admin user) then forbidden else allow

module _ {U : Type 0} (users : Repository User UserWhere U fits_user Users.has_id) where
  -- What is asked of the user that a guard loads.
  abbrev on_target : Option User → (User → Verdict) → Verdict
  on_target none k = not_found
  on_target (some u) k = k u

  -- `UpdateUserGuard`, from the search for the target on
  abbrev pub update_target : Option Caller → UpdateBody → User → Verdict
  update_target caller body target =
      if is_super_admin target.role && changes_rank body && not (caller_is_super_admin caller)
      then forbidden
      else if is_super_admin_id (role_id body.role) && not (caller_is_super_admin caller)
      then forbidden
      else allow

  unfoldable pub update_user_guard : Option Caller → UpdateBody → U → Verdict
  update_user_guard caller body s =
      if not (caller_is_admin caller) && not (same (caller_id caller) body.id)
      then forbidden
      else if not (caller_is_admin caller) && changes_rank body
      then forbidden
      else on_target (Users.find_one users (record { id = body.id; email = none }) s)
          (update_target caller body)

  -- `DeleteUserGuard`
  unfoldable pub delete_user_guard : Text → U → Verdict
  delete_user_guard k s =
      on_target (Users.find_one users (Users.by_id k) s)
        (λ u. if is_super_admin u.role then forbidden else allow)

  -- The route that deletes a user: nothing happens unless the guard allows it.
  unfoldable pub delete_user : Text → U → Verdict × U
  delete_user k s = elim (delete_user_guard k s) [
    | allow ↦ (allow, Users.soft_delete users k s)
    | verdict ↦ (verdict, s)
  ]

-- The body of a request to create a post: the status id, and the topics as the objects that the
-- parser made, which are compared by identity. `none` is a body with no topics.
pub record CreateBody : Type 0 where
  pub status : Option JsId
  pub topics : Option (List ℕ)

-- `body?.status?.id === +PostStatusEnum.Published`
abbrev pub is_published_number : Option JsId → Bool
is_published_number (some (num n)) = n == 1
is_published_number _ = false

-- `topics.some((item) => !body.topics.includes(item))` for at least one topic
abbrev lacks_topic : List ℕ → List ℕ → Bool
lacks_topic loaded given = any (λ item. not (any (λ x. x == item) given)) loaded

abbrev topics_verdict : Bool → Verdict → Verdict
topics_verdict true rest = forbidden
topics_verdict false rest = rest

abbrev check_topics : List ℕ → Option (List ℕ) → Verdict → Verdict
check_topics [] given rest = rest
check_topics (item ∷ loaded) none rest = fault
check_topics (item ∷ loaded) (some given) rest =
    topics_verdict (lacks_topic (item ∷ loaded) given) rest

-- `CreatePostGuard` for a user that was loaded with the objects of the topics; `none` is a user
-- that is not there any more.
unfoldable pub create_post_guard : Option Caller → Option (RoleEnum × List ℕ) → CreateBody → Verdict
create_post_guard none user body = fault
create_post_guard (some c) none body = fault
create_post_guard (some c) (some (role, loaded)) body =
    let publish = if is_published_number body.status && not (is_admin role) then deny else allow in
    if is_admin role then publish else check_topics loaded body.topics publish
