-- ===== src/Auth/Reachable.antt =====
-- What holds of the tables, and of the answers, after any sequence of valid requests to
-- AuthController.
use vethealth_backend.Base.{◌≢◌, Lacks}
use vethealth_backend.Password.RoundTrip.{IsKeyDerivation}
use vethealth_backend.Auth.{
  Services, Env, Db, err, fault, validate_login, register, get_pending_user, current_user,
  refresh_tokens,
}
use vethealth_backend.Auth.History.{
  AuthRequest, logs_in, logs_out, registers, asks_pending, confirms, forgets, changes, asks_current,
  refreshes, handle, IsValid, answer, Reach, here, next,
}
use vethealth_backend.Auth.Soundness.{Holds}
use vethealth_backend.Auth.Answers.{
  Fine, logs_in-Fine, logs_out-Fine, asks_current-Fine, void-Fine, asks_pending-Fine,
  refreshes-Fine, registers-Fine, forgets-Fine,
}
use vethealth_backend.Auth.NewPasswords.{confirms-Fine, changes-Fine}

module _ {U S C : Type 0} (svc : Services U S C) (env : Env) (sound : IsKeyDerivation svc.scrypt)
    (dotless : Lacks b'.' env.salt) where
  -- A request on sound tables leaves them sound, and is not answered by an internal error.
  pub handle-Fine :
      (db : Db U S C) (request : AuthRequest)
      → IsValid svc db request
      → Holds svc db
      → Fine svc env sound dotless (handle svc env request) db
  unfolding handle
  handle-Fine db (logs_in dto) v h =
      void-Fine svc env sound dotless (validate_login svc env dto) db
        (logs_in-Fine svc env sound dotless db dto h)
  handle-Fine db (logs_out session_id) v h = logs_out-Fine svc env sound dotless db session_id h
  handle-Fine db (registers dto) v h =
      void-Fine svc env sound dotless (register svc env dto) db
        (registers-Fine svc env sound dotless db dto h)
  handle-Fine db (asks_pending hash) v h =
      void-Fine svc env sound dotless (get_pending_user svc env hash) db
        (asks_pending-Fine svc env sound dotless db hash h)
  handle-Fine db (confirms dto) v h = confirms-Fine svc env sound dotless db dto h v
  handle-Fine db (forgets email) v h = forgets-Fine svc env sound dotless db email h
  handle-Fine db (changes user_id session_id dto) v h =
      changes-Fine svc env sound dotless db user_id session_id dto h v
  handle-Fine db (asks_current user_id) v h =
      void-Fine svc env sound dotless (current_user svc env user_id) db
        (asks_current-Fine svc env sound dotless db user_id h)
  handle-Fine db (refreshes session_id hash) v h =
      void-Fine svc env sound dotless (refresh_tokens svc env session_id hash) db
        (refreshes-Fine svc env sound dotless db session_id hash h)

module _ {U S C : Type 0} (svc : Services U S C) (sound : IsKeyDerivation svc.scrypt) where
  -- After any sequence of valid requests to AuthController, and of no others, on sound tables the
  -- tables are sound: only a pending user is without a password, every password is stored hashed,
  -- and every session and every token belongs to a user who is there. A request is valid where a new
  -- password is not empty, the salt holds no dot, the email of a new user is free, and a password is
  -- changed by a user who is not pending.
  pub Reach-IsSound : {start db : Db U S C} → Holds svc start → Reach svc start db → Holds svc db
  Reach-IsSound h here = h
  Reach-IsSound h (next before (answer db env request dotless v)) =
      (handle-Fine svc env sound dotless db request v (Reach-IsSound h before)).0

  -- After any sequence of valid requests to AuthController, and of no others, on sound tables, no
  -- further such request is answered by an internal error. A request is valid where a new password
  -- is not empty, the salt holds no dot, the email of a new user is free, and a password is changed
  -- by a user who is not pending. No write of the database fails.
  pub handle-ne-fault :
      (start db : Db U S C) (env : Env) (request : AuthRequest)
      → Lacks b'.' env.salt
      → IsValid svc db request
      → Holds svc start
      → Reach svc start db
      → (handle svc env request db).0 ≢ err fault
  handle-ne-fault start db env request dotless v h reach =
      (handle-Fine svc env sound dotless db request v (Reach-IsSound h reach)).1
