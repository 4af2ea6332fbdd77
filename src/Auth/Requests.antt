-- ===== src/Auth/Requests.antt =====
-- What requests to the authentication service bring, and what the service is set up with
-- (modules/auth/dto, modules/auth/types and modules/auth/strategies/types).
use vethealth_backend.Base.{ℕ, Bool, Option, List, Text}
use vethealth_backend.Repository.{Repository}
use vethealth_backend.Users
use vethealth_backend.Users.{
  RoleEnum, UserStatusEnum, active, pending, is_pending, User, UserWhere, fits_user, by_id,
  by_email, UserPatch,
}
use vethealth_backend.Auth.Sessions
use vethealth_backend.Auth.Sessions.{Session, SessionWhere, Criteria, fits_session}
use vethealth_backend.Auth.Confirms
use vethealth_backend.Auth.Confirms.{Confirm, ConfirmWhere, fits_confirm}

-- What `JwtService` signs.
pub data TokenPayload : Type 0 where
  access : (id : Text) (role : RoleEnum) (session_id : Text) → TokenPayload
  refresh : (session_id hash : Text) → TokenPayload

pub record Tokens : Type 0 where
  pub token : Text
  pub refresh_token : Text
  pub token_expires : ℕ

-- The collaborators of the service and its configuration. `sign` is `JwtService.signAsync` with a
-- secret and an `expiresIn`; `ms` is the package of that name.
pub record Services (U S C : Type 0) : Type 0 where
  pub users : Repository User UserWhere U fits_user Users.has_id
  pub sessions : Repository Session SessionWhere S fits_session Sessions.has_id
  pub confirms : Repository Confirm ConfirmWhere C fits_confirm Confirms.has_id
  pub scrypt : Text → Text → ℕ → List ℕ
  pub sign : TokenPayload → (secret expires_in : Text) → Text
  pub ms : Text → ℕ
  pub secret : Text
  pub expires : Text
  pub refresh_secret : Text
  pub refresh_expires : Text

-- What one request meets: the clock, the random values it draws, and whether mail goes out.
pub record Env : Type 0 where
  pub now : ℕ
  pub random_hash : Text
  pub salt : Text
  pub new_id : Text
  pub new_confirm_id : Text
  pub mail_up : Bool

pub record LoginDto : Type 0 where
  pub email : Text
  pub password : Text

pub record RegisterDto : Type 0 where
  pub firstname : Text
  pub lastname : Option Text
  pub email : Text
  pub role : RoleEnum
  pub topics : List Text

pub record ConfirmDto : Type 0 where
  pub hash : Text
  pub password : Text

pub record ChangePasswordDto : Type 0 where
  pub old_password : Text
  pub password : Text

-- The fields that `register` and `getPendingUser` return of a user.
pub record PublicUser : Type 0 where
  pub id : Option Text
  pub firstname : Text
  pub email : Text
