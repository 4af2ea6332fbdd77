-- ===== src/Users.antt =====
-- modules/users, roles and statuses: the user entity, its password hook and `UsersService`.
pub mod Listing
use vethealth_backend.Base.{
  ℕ, Bool, true, false, not, ◌&&◌, Option, none, some, List, Text, text_eq, truthy, if◌then◌else◌,
}
use vethealth_backend.Password.{hash_password}
use vethealth_backend.Repository.{Repository}

-- The ids of the `roles` table.
pub data RoleEnum : Type 0 where
  super_admin admin moder writer : RoleEnum

pub data UserStatusEnum : Type 0 where
  active pending blocked : UserStatusEnum

abbrev pub is_super_admin : RoleEnum → Bool
is_super_admin super_admin = true
is_super_admin _ = false

-- `role.id === RoleEnum.SuperAdmin || role.id === RoleEnum.Admin`
abbrev pub is_admin : RoleEnum → Bool
is_admin super_admin = true
is_admin admin = true
is_admin _ = false

abbrev pub is_pending : UserStatusEnum → Bool
is_pending pending = true
is_pending _ = false

-- A row of `users`; roles, statuses and topics stand by their ids.
pub record User : Type 0 where
  pub id : Text
  pub firstname : Text
  pub lastname : Option Text
  pub email : Text
  pub password : Option Text
  pub role : RoleEnum
  pub status : UserStatusEnum
  pub topics : List Text

-- The conditions that the services put on users; `none` stands for `undefined`, which is no
-- condition.
pub record UserWhere : Type 0 where
  pub id : Option Text
  pub email : Option Text

abbrev pub asks : Option Text → Text → Bool
asks none t = true
asks (some s) t = text_eq t s

abbrev pub fits_user : UserWhere → User → Bool
fits_user w u = asks w.id u.id && asks w.email u.email

abbrev pub has_id : Text → User → Bool
has_id k u = text_eq u.id k

abbrev pub by_id : Text → UserWhere
by_id k = record { id = some k; email = none }

abbrev pub by_email : Text → UserWhere
by_email k = record { id = none; email = some k }

-- `this.previousPassword !== this.password`, on values that may be undefined
abbrev same_password : Option Text → Option Text → Bool
same_password none none = true
same_password (some p) (some q) = text_eq p q
same_password _ _ = false

-- The `DeepPartial<UserEntity>` that `UsersService.update` is given.
pub record UserPatch : Type 0 where
  pub id : Text
  pub firstname : Option Text
  pub lastname : Option Text
  pub email : Option Text
  pub password : Option Text
  pub role : Option RoleEnum
  pub status : Option UserStatusEnum
  pub topics : Option (List Text)

abbrev pub given {ℓ} : {A : Type ℓ} → Option A → A → A
given none old = old
given (some new) old = new

abbrev pub given_option : Option Text → Option Text → Option Text
given_option none old = old
given_option (some new) old = some new

-- The columns of a patch written over a row, the password as the hook left it.
abbrev pub patched : UserPatch → Option Text → User → User
patched p password u = record u {
  firstname = given p.firstname u.firstname;
  lastname = given_option p.lastname u.lastname;
  email = given p.email u.email;
  password = given_option password u.password;
  role = given p.role u.role;
  status = given p.status u.status;
  topics = given p.topics u.topics;
}

module _ (scrypt : Text → Text → ℕ → List ℕ) where
  -- The hook `setPassword`, before an insert or an update.
  unfoldable pub set_password : Text → Option Text → Option Text → Option Text
  set_password salt previous none = none
  set_password salt previous (some p) =
      if not (same_password previous (some p)) && truthy p
      then some (hash_password scrypt salt p)
      else some p

module _ {U : Type 0} (users : Repository User UserWhere U fits_user has_id) where
  -- `UsersService.findOne`
  abbrev pub find_one : UserWhere → U → Option User
  find_one w s = users.find_one w s

  -- `UsersService.softDelete`
  unfoldable pub soft_delete : Text → U → U
  soft_delete k s = users.remove (by_id k) s

  module _ (scrypt : Text → Text → ℕ → List ℕ) where
    -- `UsersService.create`: the entity is new, so it has no previous password.
    unfoldable pub create : Text → User → U → User × U
    create salt u s =
        let saved = record u { password = set_password scrypt salt none u.password } in
        (saved, users.insert saved s)

    -- `UsersService.update`: the entity is made from the payload and not loaded, so its previous
    -- password is undefined.
    unfoldable pub update : Text → UserPatch → U → U
    update salt p s = users.update p.id (patched p (set_password scrypt salt none p.password)) s
