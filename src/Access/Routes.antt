-- ===== src/Access/Routes.antt =====
-- The routes of the controllers (modules/*/*.controller.ts) with their decorators, and the two
-- global guards in front of them (modules/auth/auth.module.ts).
pub mod Doors
use vethealth_backend.Base.{Bool, true, false, Option, none, some, List, [], ◌∷◌, Text, codes}
use vethealth_backend.Users.{RoleEnum, super_admin, admin}
use vethealth_backend.Access.{
  Caller, Passport, Entry, refused, entered, auth_data_guard, roles_guard,
}

pub data Method : Type 0 where
  get post patch delete : Method

-- The guards that a handler names itself, in their order.
pub data RouteGuard : Type 0 where
  jwt jwt_refresh create_post get_topics update_user delete_user : RouteGuard

-- A handler: its method and path, `@Public`, `@OptionalAuth`, `@Roles` and `@UseGuards`.
pub record Route : Type 0 where
  pub method : Method
  pub path : Text
  pub is_public : Bool
  pub is_optional : Bool
  pub roles : Option (List RoleEnum)
  pub guards : List RouteGuard

-- A handler without decorators
abbrev pub route : Method → Text → Route
route method path = record {
  method = method;
  path = path;
  is_public = false;
  is_optional = false;
  roles = none;
  guards = [];
}

-- `@Roles(RoleEnum.SuperAdmin, RoleEnum.Admin)`
abbrev pub for_admins : Route → Route
for_admins r = record r { roles = some (super_admin ∷ admin ∷ []) }

-- `@Public()`
abbrev pub public_route : Route → Route
public_route r = record r { is_public = true }

-- `@OptionalAuth()`
abbrev pub optional_auth : Route → Route
optional_auth r = record r { is_optional = true }

-- `@UseGuards(...)`
abbrev pub use_guards : List RouteGuard → Route → Route
use_guards guards r = record r { guards = guards }

pub data AuthHandler : Type 0 where
  login logout register get_pending_user confirm_email forgot_password : AuthHandler
  change_password current_user refresh : AuthHandler

-- `AuthController`
abbrev pub auth_route : AuthHandler → Route
auth_route login = public_route (route post (codes "auth/login"))
auth_route logout = route post (codes "auth/logout")
auth_route register = for_admins (route post (codes "auth/register"))
auth_route get_pending_user = public_route (route get (codes "auth/confirm/:hash"))
auth_route confirm_email = public_route (route post (codes "auth/confirm"))
auth_route forgot_password = public_route (route post (codes "auth/forgot-password"))
auth_route change_password = route patch (codes "auth/change-password")
auth_route current_user = route get (codes "auth/current-user")
auth_route refresh =
    public_route (use_guards (jwt_refresh ∷ []) (route post (codes "auth/refresh")))

-- The five handlers that the controllers of the content share; users have no `create`.
pub data Crud : Type 0 where
  create get_one get_many update remove : Crud

-- `PostsController`
abbrev pub posts_route : Crud → Route
posts_route create = use_guards (jwt ∷ create_post ∷ []) (route post (codes "posts"))
posts_route get_one = optional_auth (route get (codes "posts/:id"))
posts_route get_many = optional_auth (route get (codes "posts"))
posts_route update = route patch (codes "posts")
posts_route remove = route delete (codes "posts/:id")

-- `TopicsController`
abbrev pub topics_route : Crud → Route
topics_route create = for_admins (route post (codes "topics"))
topics_route get_one = optional_auth (use_guards (get_topics ∷ []) (route get (codes "topics/:id")))
topics_route get_many = optional_auth (use_guards (get_topics ∷ []) (route get (codes "topics")))
topics_route update = for_admins (route patch (codes "topics"))
topics_route remove = for_admins (route delete (codes "topics/:id"))

-- `CategoriesController`
abbrev pub categories_route : Crud → Route
categories_route create = for_admins (route post (codes "categories"))
categories_route get_one = public_route (route get (codes "categories/:id"))
categories_route get_many = public_route (route get (codes "categories"))
categories_route update = for_admins (route patch (codes "categories"))
categories_route remove = for_admins (route delete (codes "categories/:id"))

-- `PagesController`
abbrev pub pages_route : Crud → Route
pages_route create = for_admins (route post (codes "pages"))
pages_route get_one = route get (codes "pages/:id")
pages_route get_many = public_route (route get (codes "pages"))
pages_route update = for_admins (route patch (codes "pages"))
pages_route remove = for_admins (route delete (codes "pages/:id"))

pub data UsersHandler : Type 0 where
  get_user get_users change_user remove_user : UsersHandler

-- `UsersController`
abbrev pub users_route : UsersHandler → Route
users_route get_user = for_admins (route get (codes "users/:id"))
users_route get_users = for_admins (route get (codes "users"))
users_route change_user = use_guards (update_user ∷ []) (route patch (codes "users"))
users_route remove_user =
    for_admins (use_guards (delete_user ∷ []) (route delete (codes "users/:id")))

pub data SeoHandler : Type 0 where
  find_entries generate update_seo : SeoHandler

-- `SeoController`; its `@Roles` stands on the class.
abbrev pub seo_route : SeoHandler → Route
seo_route find_entries = for_admins (route get (codes "seo/entries"))
seo_route generate = for_admins (route post (codes "seo/:type/:id/generate"))
seo_route update_seo = for_admins (route patch (codes "seo/:type/:id"))

pub data FilesHandler : Type 0 where
  upload_file create_presigned_upload : FilesHandler

-- `FilesController`
abbrev pub files_route : FilesHandler → Route
files_route upload_file = route post (codes "files/upload")
files_route create_presigned_upload = route post (codes "files/upload-presigned")

-- Every handler of the program.
pub data Handler : Type 0 where
  auth : AuthHandler → Handler
  posts topics categories pages : Crud → Handler
  users : UsersHandler → Handler
  seo : SeoHandler → Handler
  files : FilesHandler → Handler
  search generate_seo_metadata : Handler

-- `SearchController` and `AiController` have one handler each.
abbrev pub search_route : Route
search_route = public_route (route get (codes "search"))

abbrev pub ai_route : Route
ai_route = route post (codes "ai/seo-metadata")

abbrev pub route_of : Handler → Route
route_of (auth h) = auth_route h
route_of (posts h) = posts_route h
route_of (topics h) = topics_route h
route_of (categories h) = categories_route h
route_of (pages h) = pages_route h
route_of (users h) = users_route h
route_of (seo h) = seo_route h
route_of (files h) = files_route h
route_of search = search_route
route_of generate_seo_metadata = ai_route

-- Whether `@UseInterceptors(RolesSerializerInterceptor)` stands at a handler of the five.
abbrev pub crud_serializer : Crud → Bool
crud_serializer get_one = true
crud_serializer get_many = true
crud_serializer _ = false

abbrev pub has_serializer : Handler → Bool
has_serializer (posts h) = crud_serializer h
has_serializer (topics h) = crud_serializer h
has_serializer (categories h) = crud_serializer h
has_serializer (users get_user) = true
has_serializer (users get_users) = true
has_serializer _ = false

abbrev admitted : Option (List RoleEnum) → Entry → Bool
admitted roles refused = false
admitted roles (entered user) = roles_guard roles user

-- A request passes the global guards `AuthDataGuard` and `RolesGuard`, in this order.
unfoldable pub opens : Route → Passport → Bool
unfolding auth_data_guard roles_guard
opens r p = admitted r.roles (auth_data_guard r.is_public r.is_optional p)
