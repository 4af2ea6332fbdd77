-- ===== src/Auth/Tests.antt =====
-- The service over tables in memory.
mod History
use vethealth_backend.Base.{
  ◌<◌, List, ◌≡◌, refl, ◌≢◌, true, false, none, some, [], ◌∷◌, Text, codes, arith, filter, not,
}
use vethealth_backend.Password.{hash_password, compare_password, dummy_password_hash}
use vethealth_backend.Password.Toy.{toy_scrypt, toy_scrypt-IsKeyDerivation}
use vethealth_backend.Repository.{update_rows}
use vethealth_backend.Repository.Memory.{memory}
use vethealth_backend.Users
use vethealth_backend.Users.{User, admin, writer, active, pending, blocked, fits_user}
use vethealth_backend.Auth.{
  RegisterDto, register, Services, Env, Db, LoginDto, ConfirmDto, ChangePasswordDto, Mail, ok, err,
  unprocessable, unavailable, unauthorized, incorrect_email_or_password, user_is_not_exist,
  confirmation_token_has_expired, email_send_failed, old_password_is_not_match, tokens_data,
  validate_login, refresh_tokens, confirm, change_password, request_reset, logout,
}
use vethealth_backend.Auth.Sessions
use vethealth_backend.Auth.Sessions.{Session, fits_session}
use vethealth_backend.Auth.Confirms
use vethealth_backend.Auth.Confirms.{Confirm, fits_confirm}
use vethealth_backend.Auth.UserRows.{with_password}
use vethealth_backend.Auth.Login.{
  IsLogin, validate_login-IsLogin, validate_login_sound, validate_login_uniform, opened,
}
use vethealth_backend.Auth.SessionRows.{other_than, set_hash}
use vethealth_backend.Auth.Rotation.{IsCurrent, refresh_tokens-IsCurrent, refresh_tokens_replay}
use vethealth_backend.Auth.Confirmation.{
  IsConfirmable, of_others, confirm-IsConfirmable, confirm_refused, confirm_once,
  validate_login-confirm,
}
use vethealth_backend.Auth.Registration.{IsNew, registered, validate_login-register}
use vethealth_backend.Auth.Passwords.{
  IsOwner, kept, sent, issued, change_password-IsOwner, change_password_refused, request_reset_lem,
}

auth : Unit {0}
unfolding validate_login refresh_tokens confirm change_password request_reset logout tokens_data
    compare_password hash_password dummy_password_hash Sessions.create Sessions.update
    Sessions.soft_delete Confirms.create Confirms.delete Users.create Users.update codes
auth = tt

abbrev server : Services (List User) (List Session) (List Confirm)
server = record {
  users = memory fits_user Users.has_id;
  sessions = memory fits_session Sessions.has_id;
  confirms = memory fits_confirm Confirms.has_id;
  scrypt = toy_scrypt;
  sign = λ payload secret expires_in. secret;
  ms = λ t. 1000;
  secret = 1 ∷ [];
  expires = 2 ∷ [];
  refresh_secret = 3 ∷ [];
  refresh_expires = 4 ∷ [];
}

abbrev env : Env
env = record {
  now = 5;
  random_hash = 70 ∷ 71 ∷ [];
  salt = 97 ∷ [];
  new_id = 80 ∷ [];
  new_confirm_id = 90 ∷ [];
  mail_up = true;
}

abbrev later : Env
later = record env { random_hash = 72 ∷ []; mail_up = false }

abbrev ann_password : Text
ann_password = 65 ∷ 66 ∷ []

ann_hash : Text
unfolding auth
ann_hash = hash_password toy_scrypt (98 ∷ []) ann_password

abbrev ann : User
ann = record {
  id = 1 ∷ [];
  firstname = 11 ∷ [];
  lastname = none;
  email = 12 ∷ [];
  password = some ann_hash;
  role = admin;
  status = active;
  topics = [];
}

-- A user who has not confirmed the email yet, and a blocked one with the password of `ann`.
abbrev bob : User
bob = record {
  id = 2 ∷ [];
  firstname = 21 ∷ [];
  lastname = none;
  email = 22 ∷ [];
  password = none;
  role = writer;
  status = pending;
  topics = [];
}

abbrev eve : User
eve = record ann { id = 3 ∷ []; email = 32 ∷ []; status = blocked }

abbrev ann_session : Session
ann_session = record { id = 51 ∷ []; user = 1 ∷ []; hash = 61 ∷ [] }

abbrev ann_phone : Session
ann_phone = record { id = 52 ∷ []; user = 1 ∷ []; hash = 62 ∷ [] }

abbrev eve_session : Session
eve_session = record { id = 53 ∷ []; user = 3 ∷ []; hash = 63 ∷ [] }

abbrev bob_token : Confirm
bob_token = record { id = 41 ∷ []; hash = 42 ∷ []; user = 2 ∷ []; expires_in = 9 }

abbrev db : Db (List User) (List Session) (List Confirm)
db = record {
  users = ann ∷ bob ∷ eve ∷ [];
  sessions = ann_session ∷ ann_phone ∷ eve_session ∷ [];
  confirms = bob_token ∷ [];
  outbox = [];
}

abbrev ann_login : LoginDto
ann_login = record { email = 12 ∷ []; password = ann_password }

abbrev bob_confirm : ConfirmDto
bob_confirm = record { hash = 42 ∷ []; password = 99 ∷ 99 ∷ 99 ∷ [] }

ann-IsLogin : IsLogin server env db ann_login ann
unfolding auth ann_hash
ann-IsLogin = record {
  found = refl;
  confirmed = λ e. cc;
  hash = ann_hash;
  stored = refl;
  matched = refl;
}

-- A blocked user logs in.
eve-IsLogin : IsLogin server env db (record ann_login { email = 32 ∷ [] }) eve
unfolding auth ann_hash
eve-IsLogin = record {
  found = refl;
  confirmed = λ e. cc;
  hash = ann_hash;
  stored = refl;
  matched = refl;
}

validate_login_sound_example : IsLogin server env db ann_login ann
unfolding auth ann_hash
validate_login_sound_example =
    validate_login_sound server env db ann_login
      (tokens_data server env ann.id ann.role env.new_id env.random_hash) ann refl

bob-is_pending :
    (u : User)
    → server.users.find_one (Users.by_email (22 ∷ [])) db.users ≡ some u
    → u.status ≡ pending
unfolding auth
bob-is_pending u e = ground arith

ann-IsCurrent : IsCurrent server db (51 ∷ []) (61 ∷ []) ann_session ann
unfolding auth
ann-IsCurrent = record { found = refl; holds = refl; user = refl }

refresh_tokens-IsCurrent_example :
    let (answer, db') = refresh_tokens server env (51 ∷ []) (61 ∷ []) db in
    (answer ≡ ok (tokens_data server env ann.id ann.role (51 ∷ []) env.random_hash))
    × (Sessions.find_one server.sessions (51 ∷ []) db'.sessions
        ≡ some (set_hash env.random_hash ann_session))
    × ((j : Text)
        → j ≢ 51 ∷ []
        → Sessions.find_one server.sessions j db'.sessions
          ≡ Sessions.find_one server.sessions j db.sessions)
    × (db'.users ≡ db.users)
    × (db'.confirms ≡ db.confirms)
refresh_tokens-IsCurrent_example =
    refresh_tokens-IsCurrent server env db (51 ∷ []) (61 ∷ []) ann_session ann ann-IsCurrent

new_hash_differs : env.random_hash ≢ 61 ∷ []
new_hash_differs e = cc

refresh_tokens_replay_example :
    let db' = (refresh_tokens server env (51 ∷ []) (61 ∷ []) db).1 in
    let (answer, db'') = refresh_tokens server later (51 ∷ []) (61 ∷ []) db' in
    (answer ≡ err unauthorized)
    × (db''.sessions ≡ filter (other_than (51 ∷ [])) db.sessions)
    × ((env'' : Env) (any_hash : Text)
        → refresh_tokens server env'' (51 ∷ []) any_hash db'' ≡ (err unauthorized, db''))
refresh_tokens_replay_example =
    refresh_tokens_replay server env later db (51 ∷ []) (61 ∷ []) ann_session ann refl
      new_hash_differs ann-IsCurrent

bob-IsConfirmable : IsConfirmable server env db bob_confirm.hash bob_token bob
unfolding auth
bob-IsConfirmable = record { found = refl; fresh = omega arith; user = refl }

confirm-IsConfirmable_example :
    let (answer, db') = confirm server env bob_confirm db in
    (answer ≡ ok tt)
    × (server.users.find_one (Users.by_id bob.id) db'.users
        ≡ some (
            with_password
              (hash_password toy_scrypt env.salt bob_confirm.password)
              (some active)
              bob))
    × (db'.users
        ≡ update_rows
            (Users.has_id bob.id)
            (with_password (hash_password toy_scrypt env.salt bob_confirm.password) (some active))
            db.users)
    × (db'.sessions ≡ filter (of_others bob.id) db.sessions)
    × (db'.confirms ≡ filter (λ r. not (Confirms.has_id bob_token.id r)) db.confirms)
    × (db'.outbox ≡ db.outbox)
confirm-IsConfirmable_example =
    confirm-IsConfirmable server env db bob_confirm bob_token bob bob-IsConfirmable refl

confirm_once_example :
    confirm server later bob_confirm (confirm server env bob_confirm db).1
    ≡ (err (unprocessable user_is_not_exist), (confirm server env bob_confirm db).1)
unfolding auth
confirm_once_example =
    confirm_once server env later db bob_confirm bob_confirm bob_token bob bob-IsConfirmable refl
      ((λ _. refl), tt)

validate_login-confirm_example :
    (validate_login server later
      (record { email = bob.email; password = bob_confirm.password })
      (confirm server env bob_confirm db).1).0
    ≡ ok (
      tokens_data server later bob.id bob.role later.new_id later.random_hash,
      with_password (hash_password toy_scrypt env.salt bob_confirm.password) (some active) bob,
    )
unfolding auth
validate_login-confirm_example =
    validate_login-confirm server env later db bob_confirm bob_token bob toy_scrypt-IsKeyDerivation
      (omega arith) refl bob-IsConfirmable refl

ann-IsOwner : IsOwner server later db ann.id ann_password ann
unfolding auth ann_hash
ann-IsOwner = record { found = refl; hash = ann_hash; stored = refl; matched = refl }

abbrev ann_change : ChangePasswordDto
ann_change = record { old_password = ann_password; password = 67 ∷ [] }

change_password-IsOwner_example :
    let (answer, db') = change_password server later ann.id (some (51 ∷ [])) ann_change db in
    (answer ≡ ok tt)
    × (server.users.find_one (Users.by_id ann.id) db'.users
        ≡ some (with_password (hash_password toy_scrypt later.salt ann_change.password) none ann))
    × (db'.sessions ≡ filter (kept ann.id (51 ∷ [])) db.sessions)
    × (db'.confirms ≡ db.confirms)
    × (db'.outbox ≡ sent server later db (Mail.change_password ann.email))
change_password-IsOwner_example =
    change_password-IsOwner server later db ann.id (51 ∷ []) ann_change ann ann-IsOwner refl refl

abbrev cleo : RegisterDto
cleo = record { firstname = 31 ∷ []; lastname = none; email = 33 ∷ []; role = writer; topics = [] }

abbrev cleo_password : Text
cleo_password = 98 ∷ 99 ∷ []

cleo-IsNew : IsNew server env db cleo
unfolding auth
cleo-IsNew = record { id = refl; email = refl; hash = refl }

validate_login-register_example :
    (validate_login server env
      (record { email = cleo.email; password = cleo_password })
      (confirm server env
        (record { hash = env.random_hash; password = cleo_password })
        (register server env cleo db).1).1).0
    ≡ ok (
      tokens_data server env env.new_id writer env.new_id env.random_hash,
      with_password
          (hash_password toy_scrypt env.salt cleo_password)
          (some active)
          (registered server env db cleo),
    )
validate_login-register_example =
    validate_login-register server env db cleo env env cleo_password toy_scrypt-IsKeyDerivation
      (omega arith) refl cleo-IsNew (omega arith)

-- One service run: a refresh, then an expired token, which is deleted.
run_tests :
    ((refresh_tokens server env (51 ∷ []) (61 ∷ []) db).1.sessions
      ≡ record ann_session { hash = env.random_hash } ∷ ann_phone ∷ eve_session ∷ [])
    × ((confirm server (record env { now = 10 }) bob_confirm db).1.confirms ≡ [])
    × ((change_password server env (1 ∷ []) (some (52 ∷ [])) ann_change db).1.sessions
        ≡ ann_phone ∷ eve_session ∷ [])
unfolding auth ann_hash
run_tests = (refl, refl, refl)
