-- ===== src/Auth/History.antt =====
-- modules/auth/auth.controller.ts: the requests to the service, and the databases that a sequence
-- of them leads to. The requests of other controllers that write users are not among them.
use vethealth_backend.Base.{◌≡◌, ◌≢◌, true, Option, none, some, Text, truthy, Lacks}
use vethealth_backend.Users.{User, pending, by_id, by_email}
use vethealth_backend.Auth.{
  Services, Env, Db, Action, pure, ◌>>◌, LoginDto, RegisterDto, ConfirmDto, ChangePasswordDto,
  validate_login, logout, register, get_pending_user, confirm, request_reset, change_password,
  current_user, refresh_tokens,
}

-- A handler of `AuthController` with what it reads of the request: its body or parameter, and the
-- payload of the token that came with it.
pub data AuthRequest : Type 0 where
  logs_in : LoginDto → AuthRequest
  logs_out : (session_id : Option Text) → AuthRequest
  registers : RegisterDto → AuthRequest
  asks_pending : (hash : Text) → AuthRequest
  confirms : ConfirmDto → AuthRequest
  forgets : (email : Text) → AuthRequest
  changes : (user_id : Text) (session_id : Option Text) → ChangePasswordDto → AuthRequest
  asks_current : (user_id : Text) → AuthRequest
  refreshes : (session_id hash : Text) → AuthRequest

module _ {U S C : Type 0} (svc : Services U S C) where
  -- The call that the handler makes, its answer left out.
  unfoldable pub handle : Env → AuthRequest → Action (Db U S C) (Unit {0})
  handle env (logs_in dto) = validate_login svc env dto >> pure tt
  handle env (logs_out session_id) = logout svc env session_id
  handle env (registers dto) = register svc env dto >> pure tt
  handle env (asks_pending hash) = get_pending_user svc env hash >> pure tt
  handle env (confirms dto) = confirm svc env dto
  handle env (forgets email) = request_reset svc env email
  handle env (changes user_id session_id dto) = change_password svc env user_id session_id dto
  handle env (asks_current user_id) = current_user svc env user_id >> pure tt
  handle env (refreshes session_id hash) = refresh_tokens svc env session_id hash >> pure tt

  -- New passwords are not empty and the email of a new user is free, as the DTOs ask (of deleted
  -- users too, whose rows are not in these tables), so that the unique column takes the row; and the
  -- payload of an access token names a user who could log in, so who is not pending.
  abbrev pub IsValid : Db U S C → AuthRequest → Type 0
  IsValid db (confirms dto) = truthy dto.password ≡ true
  IsValid db (registers dto) = svc.users.find_one (by_email dto.email) db.users ≡ none
  IsValid db (changes user_id session_id dto) =
      (truthy dto.password ≡ true)
      × ((u : User) → svc.users.find_one (by_id user_id) db.users ≡ some u → u.status ≢ pending)
  IsValid db _ = Unit

  -- One request, with a salt that holds no dot, as hexadecimal digits do.
  pub data Step : Db U S C → Db U S C → Type 0 where
    answer :
        (db : Db U S C) (env : Env) (request : AuthRequest)
        → Lacks b'.' env.salt
        → IsValid db request
        → Step db (handle env request db).1

  pub data Reach (start : Db U S C) : Db U S C → Type 0 where
    here : Reach start start
    next : {db db' : Db U S C} → Reach start db → Step db db' → Reach start db'
