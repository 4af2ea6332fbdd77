-- ===== src/Access/Routes/Doors.antt =====
-- Whom the global guards let in.
use vethealth_backend.Base.{
  ◌≡◌, refl, ap, sym, ◌∙◌, Bool, true, false, not, ◌&&◌, Option, some, List, [], ◌∷◌, arith, any,
}
use vethealth_backend.Users.{RoleEnum, super_admin, admin, moder, writer, is_admin}
use vethealth_backend.Access.{
  Caller, Passport, failed, absent, present, role_eq, auth_data_guard, roles_guard,
}
use vethealth_backend.Access.Routes.{
  Method, get, Route, Crud, Handler, route_of, opens, auth, categories, change_password,
  change_user, confirm_email, create, create_presigned_upload, current_user, files, find_entries,
  forgot_password, generate, generate_seo_metadata, get_many, get_one, get_pending_user, get_user,
  get_users, login, logout, pages, posts, refresh, register, remove, remove_user, search, seo,
  topics, update, update_seo, upload_file, users,
}

-- A request that may write: every method but GET.
abbrev pub writes : Method → Bool
writes get = false
writes _ = true

-- The ways to a session, which are there for whom has none.
abbrev pub is_entrance : Handler → Bool
is_entrance (auth login) = true
is_entrance (auth confirm_email) = true
is_entrance (auth forgot_password) = true
is_entrance (auth refresh) = true
is_entrance _ = false

abbrev changes : Crud → Bool
changes get_one = false
changes get_many = false
changes _ = true

-- What only administrators do: the structure of the site, the users, and the metadata of the
-- materials of others.
abbrev pub is_administration : Handler → Bool
is_administration (auth register) = true
is_administration (topics h) = changes h
is_administration (categories h) = changes h
is_administration (pages h) = changes h
is_administration (users change_user) = false
is_administration (users h) = true
is_administration (seo h) = true
is_administration _ = false

-- Neither `@Public` nor `@OptionalAuth`
abbrev is_closed : Route → Bool
is_closed r = not r.is_public && not r.is_optional

abbrev admins : Option (List RoleEnum)
admins = some (super_admin ∷ admin ∷ [])

opens-present :
    (r : Route) (p : Passport)
    → is_closed r ≡ true
    → opens r p ≡ true
    → (c : Caller) × (p ≡ present c) × (roles_guard r.roles (some c) ≡ true)
unfolding opens auth_data_guard roles_guard
opens-present r (present c) h e = (c, refl, ground arith)
opens-present r failed h e = ground arith
opens-present r absent h e = ground arith

role_of_admins :
    (r : RoleEnum) → any (role_eq r) (super_admin ∷ admin ∷ []) ≡ true → is_admin r ≡ true
role_of_admins super_admin h = refl
role_of_admins admin h = refl
role_of_admins moder h = cc
role_of_admins writer h = cc

is_admin-roles_guard : (c : Caller) → roles_guard admins (some c) ≡ true → is_admin c.role ≡ true
unfolding roles_guard
is_admin-roles_guard c h = role_of_admins c.role h

writes-is_closed :
    (h : Handler)
    → writes (route_of h).method ≡ true
    → is_entrance h ≡ false
    → is_closed (route_of h) ≡ true
writes-is_closed (auth login) w n = cc
writes-is_closed (auth logout) w n = refl
writes-is_closed (auth register) w n = refl
writes-is_closed (auth get_pending_user) w n = cc
writes-is_closed (auth confirm_email) w n = cc
writes-is_closed (auth forgot_password) w n = cc
writes-is_closed (auth change_password) w n = refl
writes-is_closed (auth current_user) w n = refl
writes-is_closed (auth refresh) w n = cc
writes-is_closed (posts create) w n = refl
writes-is_closed (posts get_one) w n = cc
writes-is_closed (posts get_many) w n = cc
writes-is_closed (posts update) w n = refl
writes-is_closed (posts remove) w n = refl
writes-is_closed (topics create) w n = refl
writes-is_closed (topics get_one) w n = cc
writes-is_closed (topics get_many) w n = cc
writes-is_closed (topics update) w n = refl
writes-is_closed (topics remove) w n = refl
writes-is_closed (categories create) w n = refl
writes-is_closed (categories get_one) w n = cc
writes-is_closed (categories get_many) w n = cc
writes-is_closed (categories update) w n = refl
writes-is_closed (categories remove) w n = refl
writes-is_closed (pages create) w n = refl
writes-is_closed (pages get_one) w n = refl
writes-is_closed (pages get_many) w n = cc
writes-is_closed (pages update) w n = refl
writes-is_closed (pages remove) w n = refl
writes-is_closed (users get_user) w n = refl
writes-is_closed (users get_users) w n = refl
writes-is_closed (users change_user) w n = refl
writes-is_closed (users remove_user) w n = refl
writes-is_closed (seo find_entries) w n = refl
writes-is_closed (seo generate) w n = refl
writes-is_closed (seo update_seo) w n = refl
writes-is_closed (files upload_file) w n = refl
writes-is_closed (files create_presigned_upload) w n = refl
writes-is_closed search w n = cc
writes-is_closed generate_seo_metadata w n = refl

administration_closed :
    (h : Handler)
    → is_administration h ≡ true
    → (is_closed (route_of h) ≡ true) × ((route_of h).roles ≡ admins)
administration_closed (auth login) a = cc
administration_closed (auth logout) a = cc
administration_closed (auth register) a = (refl, refl)
administration_closed (auth get_pending_user) a = cc
administration_closed (auth confirm_email) a = cc
administration_closed (auth forgot_password) a = cc
administration_closed (auth change_password) a = cc
administration_closed (auth current_user) a = cc
administration_closed (auth refresh) a = cc
administration_closed (posts create) a = cc
administration_closed (posts get_one) a = cc
administration_closed (posts get_many) a = cc
administration_closed (posts update) a = cc
administration_closed (posts remove) a = cc
administration_closed (topics create) a = (refl, refl)
administration_closed (topics get_one) a = cc
administration_closed (topics get_many) a = cc
administration_closed (topics update) a = (refl, refl)
administration_closed (topics remove) a = (refl, refl)
administration_closed (categories create) a = (refl, refl)
administration_closed (categories get_one) a = cc
administration_closed (categories get_many) a = cc
administration_closed (categories update) a = (refl, refl)
administration_closed (categories remove) a = (refl, refl)
administration_closed (pages create) a = (refl, refl)
administration_closed (pages get_one) a = cc
administration_closed (pages get_many) a = cc
administration_closed (pages update) a = (refl, refl)
administration_closed (pages remove) a = (refl, refl)
administration_closed (users get_user) a = (refl, refl)
administration_closed (users get_users) a = (refl, refl)
administration_closed (users change_user) a = cc
administration_closed (users remove_user) a = (refl, refl)
administration_closed (seo find_entries) a = (refl, refl)
administration_closed (seo generate) a = (refl, refl)
administration_closed (seo update_seo) a = (refl, refl)
administration_closed (files upload_file) a = cc
administration_closed (files create_presigned_upload) a = cc
administration_closed search a = cc
administration_closed generate_seo_metadata a = cc

-- A handler that may write is reached only by a caller whom passport found, but for the four ways to
-- a session; what only administrators do is reached only by a caller who is one.
pub opens-route_of :
    (h : Handler) (p : Passport)
    → opens (route_of h) p ≡ true
    → (writes (route_of h).method ≡ true → is_entrance h ≡ false → (c : Caller) × (p ≡ present c))
      × (is_administration h ≡ true → (c : Caller) × (p ≡ present c) × (is_admin c.role ≡ true))
opens-route_of h p e = (
  λ w n.
      let (c, found, roles) = opens-present (route_of h) p (writes-is_closed h w n) e in (c, found),
  λ a.
      let (closed, for_admins) = administration_closed h a in
      let (c, found, roles) = opens-present (route_of h) p closed e in
      (
        c,
        found,
        is_admin-roles_guard c (sym (ap (λ r. roles_guard r (some c)) for_admins) ∙ roles),
      ),
)
