-- ===== src/Access/Serialization.antt =====
-- modules/auth/interceptors/roles-serializer.interceptor.ts, and the fields of a user that
-- modules/users/entities/user.entity.ts shows to whom.
pub mod Shown
use vethealth_backend.Base.{
  ◌≡◌, Bool, true, false, ◌&&◌, Option, none, some, List, [], ◌∷◌, any, Text, text_eq,
  if◌then◌else◌,
}
use vethealth_backend.Users.{RoleEnum, super_admin, admin}
use vethealth_backend.Access.{Caller, role_eq}
use vethealth_backend.Access.Routes.{Handler, has_serializer}

-- A group of readers: those with a role, or the user that the answer is about.
pub data Group : Type 0 where
  role_group : RoleEnum → Group
  me : Group

abbrev pub group_eq : Group → Group → Bool
group_eq (role_group r) (role_group s) = role_eq r s
group_eq me me = true
group_eq _ _ = false

pub data UserField : Type 0 where
  id firstname lastname email password previous_password created_at updated_at : UserField
  deleted_at posts role status topics : UserField

-- The decorators of a field: none, `@Exclude({ toPlainOnly: true })`, or `@Expose({ groups })`.
pub data Exposure : Type 0 where
  plain excluded : Exposure
  exposed : List Group → Exposure

abbrev admins : List Group
admins = role_group super_admin ∷ role_group admin ∷ []

abbrev pub exposure : UserField → Exposure
exposure email = exposed (role_group super_admin ∷ role_group admin ∷ me ∷ [])
exposure password = excluded
exposure previous_password = excluded
exposure created_at = exposed admins
exposure updated_at = exposed admins
exposure deleted_at = exposed admins
exposure _ = plain

-- What class-transformer documents of `instanceToPlain`: a field that is excluded is never shown, one
-- without decorators always, and one with groups exactly if one of them is asked for.
pub record Serializer : Type 0 where
  pub shows : List Group → Exposure → Bool
  pub shows-plain : (groups : List Group) → shows groups plain ≡ true
  pub shows-excluded : (groups : List Group) → shows groups excluded ≡ false
  pub shows-exposed :
      (groups wanted : List Group)
      → shows groups (exposed wanted) ≡ any (λ g. any (group_eq g) groups) wanted

-- What a handler answers: one user, by its id, or something else, such as a page of users.
pub data Answer : Type 0 where
  user_entity : Text → Answer
  other : Answer

-- The groups that `intercept` asks for; without a caller the global interceptor is left, and asks for
-- none.
unfoldable pub groups_of : Option Caller → Answer → List Group
groups_of none answer = []
groups_of (some c) other = role_group c.role ∷ []
groups_of (some c) (user_entity k) =
    if text_eq k c.id then role_group c.role ∷ me ∷ [] else role_group c.role ∷ []

-- The groups for the answer of a handler: only the global interceptor stands at all of them.
abbrev pub asked_groups : (has_serializer : Bool) → Option Caller → Answer → List Group
asked_groups true caller answer = groups_of caller answer
asked_groups false caller answer = []

-- Whether a reader gets a field of the users in the answer of a handler.
abbrev pub is_shown : Serializer → Handler → Option Caller → Answer → UserField → Bool
is_shown serializer handler caller answer field =
    serializer.shows (asked_groups (has_serializer handler) caller answer) (exposure field)
