-- ===== src/Auth.antt =====
-- modules/auth/auth.service.ts: `AuthService`.
mod Monad
mod Requests
pub mod Sessions
pub mod Confirms
mod UserRows
mod SessionRows
pub mod Login
pub mod Rotation
mod Tests
pub mod Passwords
pub mod Confirmation
pub mod Registration
pub mod History
mod Soundness
mod Answers
mod NewPasswords
pub mod Reachable
pub use Monad.*
pub use Requests.*
use vethealth_backend.Base.{
  ℕ, ◌+◌, Bool, true, false, not, ◌&&◌, ◌||◌, Option, none, some, List, [], ◌∷◌, Text, codes,
  text_eq, ltb, if◌then◌else◌,
}
use vethealth_backend.Password.{dummy_password_hash, compare_password}
use vethealth_backend.Repository.{Repository}
use vethealth_backend.Users
use vethealth_backend.Users.{
  RoleEnum, UserStatusEnum, active, pending, is_pending, User, UserWhere, fits_user, by_id,
  by_email, UserPatch,
}
use Sessions.{Session, SessionWhere, Criteria, fits_session}
use Confirms.{Confirm, ConfirmWhere, fits_confirm}

-- The hash that the given password is compared with; the dummy stands in where there is no user or
-- a pending one. `none` is a user without a password.
abbrev pub login_hash : Option User → Option Text
login_hash none = some dummy_password_hash
login_hash (some u) = if is_pending u.status then some dummy_password_hash else u.password

-- `!user || user.status.id === Pending || !isValid` raises; else the user is there.
abbrev pub accepted : Option User → Bool → Option User
accepted none valid = none
accepted (some u) valid = if is_pending u.status || not valid then none else some u

-- A patch with a new password and, where one is given, a new status.
abbrev pub password_patch : Text → Text → Option UserStatusEnum → UserPatch
password_patch k password status = record {
  id = k;
  firstname = none;
  lastname = none;
  email = none;
  password = some password;
  role = none;
  status = status;
  topics = none;
}

module _ {U S C : Type 0} (svc : Services U S C) (env : Env) where
  -- `comparePassword` on a hash that may be null; a null hash is a rejection, a malformed one
  -- an exception outside the promise. Both are `fault`.
  abbrev compare : Text → Option Text → Action (Db U S C) Bool
  compare password none = raise fault
  compare password (some hash) = or_raise (compare_password svc.scrypt password hash) fault

  abbrev find_user : UserWhere → Action (Db U S C) (Option User)
  find_user w = gets (λ db. Users.find_one svc.users w db.users)

  -- The eager relation `user` of a session or a confirmation: it is null when the user is deleted,
  -- and then reading a field of it raises a TypeError.
  abbrev related_user : Text → Action (Db U S C) User
  related_user k = find_user (by_id k) >>= λ u. or_raise u fault

  abbrev delete_sessions : Criteria → Action (Db U S C) (Unit {0})
  delete_sessions c =
      modify (λ db. record db { sessions = Sessions.soft_delete svc.sessions c db.sessions })

  abbrev update_user : UserPatch → Action (Db U S C) (Unit {0})
  update_user p =
      modify (λ db. record db { users = Users.update svc.users svc.scrypt env.salt p db.users })

  abbrev delete_confirm : Text → Action (Db U S C) (Unit {0})
  delete_confirm k =
      modify (λ db. record db { confirms = Confirms.delete svc.confirms k db.confirms })

  abbrev create_confirm : Text → Action (Db U S C) (Unit {0})
  create_confirm user = modify (λ db. record db {
    confirms =
        Confirms.create svc.confirms env.new_confirm_id env.random_hash user
          (env.now + svc.ms (codes "1d")) db.confirms;
  })

  -- A mail goes out, or `MailService` raises.
  abbrev send : Mail → Action (Db U S C) (Unit {0})
  send m db =
      if env.mail_up
      then (ok tt, record db { outbox = m ∷ db.outbox })
      else (err (unavailable email_send_failed), db)

  -- `getTokensData`
  unfoldable pub tokens_data : Text → RoleEnum → Text → Text → Tokens
  tokens_data id role session_id hash = record {
    token = svc.sign (access id role session_id) svc.secret svc.expires;
    refresh_token = svc.sign (refresh session_id hash) svc.refresh_secret svc.refresh_expires;
    token_expires = env.now + svc.ms svc.expires;
  }

  unfoldable pub validate_login : LoginDto → Action (Db U S C) (Tokens × User)
  unfolding tokens_data
  validate_login dto = do
    user ← find_user (by_email dto.email)
    valid ← compare dto.password (login_hash user)
    u ← or_raise (accepted user valid) (unprocessable incorrect_email_or_password)
    modify (λ db. record db {
      sessions = (Sessions.create svc.sessions env.new_id u.id env.random_hash db.sessions).1;
    })
    pure (tokens_data u.id u.role env.new_id env.random_hash, u)

  -- The id of the session that the token names; it may be missing from the token.
  unfoldable pub logout : Option Text → Action (Db U S C) (Unit {0})
  logout session_id = delete_sessions (record { id = session_id; user = none; exclude_id = none })

  unfoldable pub register : RegisterDto → Action (Db U S C) PublicUser
  register dto = do
    let user : User = record {
      id = env.new_id;
      firstname = dto.firstname;
      lastname = dto.lastname;
      email = dto.email;
      password = none;
      role = dto.role;
      status = pending;
      topics = dto.topics;
    }
    modify
        (λ db. record db { users = (Users.create svc.users svc.scrypt env.salt user db.users).1 })
    create_confirm env.new_id
    send (sign_up dto.email env.random_hash)
    pure (record { id = some env.new_id; firstname = user.firstname; email = user.email })

  unfoldable pub get_pending_user : Text → Action (Db U S C) PublicUser
  get_pending_user hash = do
    found ← gets (λ db. Confirms.find_one svc.confirms hash db.confirms)
    c ← or_raise found (unprocessable user_is_not_exist)
    user ← related_user c.user
    pure (record { id = none; firstname = user.firstname; email = user.email })

  -- An expired confirmation is deleted, and the request fails.
  abbrev expire : Confirm → Action (Db U S C) (Unit {0})
  expire c =
      if ltb c.expires_in env.now
      then (delete_confirm c.id >> raise (unprocessable confirmation_token_has_expired))
      else pure tt

  unfoldable pub confirm : ConfirmDto → Action (Db U S C) (Unit {0})
  confirm dto = do
    found ← gets (λ db. Confirms.find_one svc.confirms dto.hash db.confirms)
    c ← or_raise found (unprocessable user_is_not_exist)
    expire c
    user ← related_user c.user
    delete_sessions (record { id = none; user = some user.id; exclude_id = none })
    update_user (password_patch user.id dto.password (some active))
    delete_confirm c.id

  abbrev forgot_password_of : Text → Option User → Action (Db U S C) (Unit {0})
  forgot_password_of email none = pure tt
  forgot_password_of email (some u) =
      create_confirm u.id >> send (forgot_password email env.random_hash)

  unfoldable pub request_reset : Text → Action (Db U S C) (Unit {0})
  request_reset email = find_user (by_email email) >>= forgot_password_of email

  -- A mail whose failure is logged only.
  abbrev try_send : Mail → Action (Db U S C) (Unit {0})
  try_send m = modify (λ db. (send m db).1)

  -- `authUser` is the payload of the access token; the session id may be missing from it.
  unfoldable pub change_password :
      Text → Option Text → ChangePasswordDto → Action (Db U S C) (Unit {0})
  change_password user_id session_id dto = do
    found ← find_user (by_id user_id)
    user ← or_raise found (unprocessable user_is_not_exist)
    valid ← compare dto.old_password user.password
    raise_if (not valid) (unprocessable old_password_is_not_match)
    update_user (password_patch user_id dto.password none)
    delete_sessions (record { id = none; user = some user_id; exclude_id = session_id })
    try_send (Mail.change_password user.email)

  -- A hash that is not the stored one revokes the session.
  abbrev check_hash : Session → Text → Action (Db U S C) (Unit {0})
  check_hash s hash =
      if text_eq s.hash hash
      then pure tt
      else (delete_sessions (record { id = some s.id; user = none; exclude_id = none })
          >> raise unauthorized)

  unfoldable pub refresh_tokens : Text → Text → Action (Db U S C) Tokens
  unfolding tokens_data
  refresh_tokens session_id hash = do
    found ← gets (λ db. Sessions.find_one svc.sessions session_id db.sessions)
    s ← or_raise found unauthorized
    check_hash s hash
    modify (λ db. record db {
      sessions = Sessions.update svc.sessions s.id env.random_hash db.sessions;
    })
    user ← related_user s.user
    pure (tokens_data user.id user.role s.id env.random_hash)

  unfoldable pub current_user : Text → Action (Db U S C) (Option User)
  current_user user_id = find_user (by_id user_id)
