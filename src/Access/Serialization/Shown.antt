-- ===== src/Access/Serialization/Shown.antt =====
-- Which fields of users are shown to whom.
use vethealth_backend.Base.{
  ◌&&◌, if◌then◌else◌, Bool, true, false, ◌||◌, Option, none, some, List, [], ◌∷◌, any, text_eq,
}
use vethealth_backend.Users.{super_admin, admin}
use vethealth_backend.Access.{Caller, caller_is_admin}
use vethealth_backend.Access.Routes.{Method, get, Handler, route_of}
use vethealth_backend.Access.Serialization.{
  Group, role_group, group_eq, UserField, id, posts, topics, email, password, previous_password,
  created_at, updated_at, deleted_at, Answer, user_entity, other,
}

-- Whether the answer is the caller's own user.
abbrev pub is_self : Option Caller → Answer → Bool
is_self none answer = false
is_self (some c) other = false
is_self (some c) (user_entity k) = text_eq k c.id

-- Who sees a field: never anybody, an administrator, these and the user itself, or everybody.
abbrev pub right_to_see : UserField → Option Caller → Answer → Bool
right_to_see password caller answer = false
right_to_see previous_password caller answer = false
right_to_see email caller answer = caller_is_admin caller || is_self caller answer
right_to_see created_at caller answer = caller_is_admin caller
right_to_see updated_at caller answer = caller_is_admin caller
right_to_see deleted_at caller answer = caller_is_admin caller
right_to_see _ caller answer = true

abbrev admins : List Group
admins = role_group super_admin ∷ role_group admin ∷ []

abbrev wanted : List Group → List Group → Bool
wanted groups = any (λ g. any (group_eq g) groups)

-- The handlers that read users, posts, topics and categories.
abbrev is_get : Method → Bool
is_get get = true
is_get _ = false

abbrev of_content : Handler → Bool
of_content (Handler.users h) = true
of_content (Handler.posts h) = true
of_content (Handler.topics h) = true
of_content (Handler.categories h) = true
of_content _ = false

abbrev pub is_reading : Handler → Bool
is_reading h = of_content h && is_get (route_of h).method

-- The reader, where the handler asks who it is.
abbrev pub known_reader : Handler → Option Caller → Option Caller
known_reader h caller = if is_reading h then caller else none
