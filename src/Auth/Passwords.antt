-- ===== src/Auth/Passwords.antt =====
-- Changing a password and asking for a new one.
use vethealth_backend.Base.{
  inl, inr, ◌∙◌, List, Bool-cases, ◌+◌, ◌≡◌, refl, ap, fun_ext, Bool, true, false, not, ◌||◌,
  Option, some, none, [], ◌∷◌, ◌++◌, arith, Text, codes, truthy, text_eq, filter, if◌then◌else◌,
}
use vethealth_backend.Password.{hash_password, compare_password}
use vethealth_backend.Users
use vethealth_backend.Users.{User, by_id, by_email}
use vethealth_backend.Auth.{
  Services, Env, Db, Mail, ChangePasswordDto, ok, err, unprocessable, unavailable,
  old_password_is_not_match, email_send_failed, password_patch, request_reset, change_password,
}
use vethealth_backend.Auth.Sessions
use vethealth_backend.Auth.Sessions.{Session, Criteria, fits_session, has_id, delete_where}
use vethealth_backend.Auth.Confirms
use vethealth_backend.Auth.Confirms.{Confirm}
use vethealth_backend.Auth.UserRows.{with_password, find_one-after_self}

-- What `change_password` keeps: the given session, and those of other users.
abbrev pub kept : Text → Text → Session → Bool
kept user_id session_id s = text_eq s.id session_id || not (text_eq s.user user_id)

abbrev but : Text → Text → Criteria
but user_id session_id = record { id = none; user = some user_id; exclude_id = some session_id }

not-fits :
    (user_id k : Text) (s : Session)
    → truthy k ≡ true
    → not (fits_session (delete_where (but user_id k)) s) ≡ kept user_id k s
unfolding delete_where
not-fits user_id [] s t = cc
not-fits user_id (c ∷ k) s t = ground arith

module _ {U S C : Type 0} (svc : Services U S C) (env : Env) (db : Db U S C) where
  -- The user is there, and the old password is the stored one.
  pub record IsOwner (user_id old_password : Text) (u : User) : Type 0 where
    pub found : svc.users.find_one (by_id user_id) db.users ≡ some u
    pub hash : Text
    pub stored : u.password ≡ some hash
    pub matched : compare_password svc.scrypt old_password hash ≡ some true

  -- The mails after one more, if it goes out.
  abbrev pub sent : Mail → List Mail
  sent m = if env.mail_up then m ∷ db.outbox else db.outbox

  -- The tables after the change.
  abbrev changed : Text → Text → Text → Db U S C
  changed user_id session_id password = record db {
    users =
        Users.update svc.users svc.scrypt env.salt (password_patch user_id password none) db.users;
    sessions = Sessions.soft_delete svc.sessions (but user_id session_id) db.sessions;
  }

  change_password_lem :
      (user_id session_id : Text) (dto : ChangePasswordDto) (u : User)
      → IsOwner user_id dto.old_password u
      → change_password svc env user_id (some session_id) dto db ≡ (
        ok tt,
        record (changed user_id session_id dto.password) {
          outbox = sent (Mail.change_password u.email);
        },
      )
  unfolding change_password
  change_password_lem user_id session_id dto u h = elim (Bool-cases env.mail_up) [
    | inl up ↦ rw up (ground arith)
    | inr down ↦ rw down (ground arith)
  ]

  rows-changed :
      (user_id session_id password : Text)
      → truthy session_id ≡ true
      → svc.sessions.rows (changed user_id session_id password).sessions
        ≡ filter (kept user_id session_id) (svc.sessions.rows db.sessions)
  unfolding Sessions.soft_delete
  rows-changed user_id session_id password t =
      svc.sessions.rows-remove _ db.sessions
      ∙ ap (λ p. filter p (svc.sessions.rows db.sessions))
          (fun_ext (λ s. not-fits user_id session_id s t))

  -- A change of the password by its owner stores the new password and deletes every session of the
  -- user but the one that the request came by. The sessions of others and the tokens stay. A mail
  -- that cannot be sent changes nothing of this. The password and the session id are not empty.
  pub change_password-IsOwner :
      (user_id session_id : Text) (dto : ChangePasswordDto) (u : User)
      → IsOwner user_id dto.old_password u
      → truthy dto.password ≡ true
      → truthy session_id ≡ true
      → let (answer, db') = change_password svc env user_id (some session_id) dto db in
        (answer ≡ ok tt)
        × (svc.users.find_one (by_id user_id) db'.users
            ≡ some (with_password (hash_password svc.scrypt env.salt dto.password) none u))
        × (svc.sessions.rows db'.sessions
            ≡ filter (kept user_id session_id) (svc.sessions.rows db.sessions))
        × (db'.confirms ≡ db.confirms)
        × (db'.outbox ≡ sent (Mail.change_password u.email))
  change_password-IsOwner user_id session_id dto u h t k =
      rw (change_password_lem user_id session_id dto u h) (
        refl,
        find_one-after_self svc.users svc.scrypt env.salt dto.password user_id none db.users u
            (by_id user_id) t h.found h.found,
        rows-changed user_id session_id dto.password k,
        refl,
        refl,
      )

  -- With another password than the stored one the request is refused, and nothing changes.
  pub change_password_refused :
      (user_id : Text) (session_id : Option Text) (dto : ChangePasswordDto) (u : User) (hash : Text)
      → svc.users.find_one (by_id user_id) db.users ≡ some u
      → u.password ≡ some hash
      → compare_password svc.scrypt dto.old_password hash ≡ some false
      → change_password svc env user_id session_id dto db
        ≡ (err (unprocessable old_password_is_not_match), db)
  unfolding change_password
  change_password_refused user_id session_id dto u hash f p e = ground arith

  -- The token that a request for a new password stores.
  abbrev pub issued : User → Confirm
  issued u = record {
    id = env.new_confirm_id;
    hash = env.random_hash;
    user = u.id;
    expires_in = env.now + svc.ms (codes "1d");
  }

  -- A request for an unknown email succeeds and changes nothing. For a known one a token of its user
  -- is stored behind the others, and a mail with the token is sent; a mail that cannot be sent is
  -- an error, and the token stays. Users and sessions never change.
  pub request_reset_lem :
      (email : Text)
      → (svc.users.find_one (by_email email) db.users ≡ none
          → request_reset svc env email db ≡ (ok tt, db))
        × ((u : User)
            → svc.users.find_one (by_email email) db.users ≡ some u
            → let (answer, db') = request_reset svc env email db in
              (answer ≡ (if env.mail_up then ok tt else err (unavailable email_send_failed)))
              × (svc.confirms.rows db'.confirms ≡ svc.confirms.rows db.confirms ++ (issued u ∷ []))
              × (db'.outbox ≡ sent (Mail.forgot_password email env.random_hash))
              × (db'.users ≡ db.users)
              × (db'.sessions ≡ db.sessions))
  unfolding request_reset Confirms.create
  request_reset_lem email = (
    (λ e. ground arith),
    λ u e. elim (Bool-cases env.mail_up) [
      | inl up ↦
          rw (e, up) (refl, svc.confirms.rows-insert (issued u) db.confirms, refl, refl, refl)
      | inr down ↦
          rw (e, down) (refl, svc.confirms.rows-insert (issued u) db.confirms, refl, refl, refl)
    ],
  )
