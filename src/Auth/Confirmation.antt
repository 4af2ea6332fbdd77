-- ===== src/Auth/Confirmation.antt =====
-- Confirming an email, or a new password, by the token of a mail.
use vethealth_backend.Base.{
  ◌≡◌, refl, ap, sym, fun_ext, ◌≢◌, Bool, true, not, some, none, arith, Text, ◌≤◌, ◌<◌, truthy,
  text_eq, text_eq_iff, first_sound, first-filter-none_of_All, All, All-map, filter, Lacks, subst,
}
use vethealth_backend.Password.{hash_password}
use vethealth_backend.Password.RoundTrip.{IsKeyDerivation}
use vethealth_backend.Users
use vethealth_backend.Users.{User, UserStatusEnum, active, pending, by_id, by_email}
use vethealth_backend.Auth.{
  Services, Env, Db, ConfirmDto, ok, err, unprocessable, user_is_not_exist,
  confirmation_token_has_expired, password_patch, tokens_data, confirm, validate_login,
}
use vethealth_backend.Auth.Sessions
use vethealth_backend.Auth.Sessions.{Session, Criteria}
use vethealth_backend.Auth.Confirms
use vethealth_backend.Auth.Confirms.{Confirm, fits_confirm}
use vethealth_backend.Auth.UserRows.{
  with_password, compare_password_self, find_one-after_self, rows-after,
}
use vethealth_backend.Repository.{update_rows}
use vethealth_backend.Auth.Login.{validate_login-IsLogin}

-- The sessions of other users.
abbrev pub of_others : Text → Session → Bool
of_others user s = not (text_eq s.user user)

active-ne_pending : active ≢ pending
active-ne_pending e = cc

not-fits :
    (k : Text) (r : Confirm)
    → not (fits_confirm (record { id = some k; hash = none }) r) ≡ not (Confirms.has_id k r)
not-fits k r = ground arith

module _ {U S C : Type 0} (svc : Services U S C) (env : Env) (db : Db U S C) where
  -- The token is stored, it has not expired, and its user is there.
  pub record IsConfirmable (hash : Text) (c : Confirm) (u : User) : Type 0 where
    pub found : Confirms.find_one svc.confirms hash db.confirms ≡ some c
    pub fresh : env.now ≤ c.expires_in
    pub user : svc.users.find_one (by_id c.user) db.users ≡ some u

  -- No other stored token has the hash.
  abbrev pub IsUnique : Text → Text → Type 0
  IsUnique hash id =
      All (λ r. text_eq r.hash hash ≡ true → text_eq r.id id ≡ true) (svc.confirms.rows db.confirms)

  abbrev pub all_of : Text → Criteria
  all_of user = record { id = none; user = some user; exclude_id = none }

  abbrev pub confirmed : Text → Confirm → User → Db U S C
  confirmed password c u = record db {
    sessions = Sessions.soft_delete svc.sessions (all_of u.id) db.sessions;
    users =
        Users.update svc.users svc.scrypt env.salt (password_patch u.id password (some active))
          db.users;
    confirms = Confirms.delete svc.confirms c.id db.confirms;
  }

  pub confirm_lem :
      (dto : ConfirmDto) (c : Confirm) (u : User)
      → IsConfirmable dto.hash c u
      → confirm svc env dto db ≡ (ok tt, confirmed dto.password c u)
  unfolding confirm
  confirm_lem dto c u h = ground arith

  -- A token that is not stored is refused and changes nothing; one that has expired is refused and
  -- deleted, and changes nothing else.
  pub confirm_refused :
      (dto : ConfirmDto)
      → (Confirms.find_one svc.confirms dto.hash db.confirms ≡ none
          → confirm svc env dto db ≡ (err (unprocessable user_is_not_exist), db))
        × ((c : Confirm)
            → Confirms.find_one svc.confirms dto.hash db.confirms ≡ some c
            → c.expires_in < env.now
            → confirm svc env dto db ≡ (
              err (unprocessable confirmation_token_has_expired),
              record db { confirms = Confirms.delete svc.confirms c.id db.confirms },
            ))
  unfolding confirm
  confirm_refused dto = (λ e. ground arith, λ c e late. ground arith)

  user-id : (hash : Text) (c : Confirm) (u : User) → IsConfirmable hash c u → u.id ≡ c.user
  user-id hash c u h = (text_eq_iff u.id c.user).0 (
      ground (
        arith,
        first_sound (Users.has_id c.user) (svc.users.rows db.users) u,
        svc.users.find_one-rows (by_id c.user) db.users,
      ))

  -- The confirmation of a user, by a search for its own id.
  pub own-user :
      (hash : Text) (c : Confirm) (u : User)
      → IsConfirmable hash c u
      → svc.users.find_one (by_id u.id) db.users ≡ some u
  own-user hash c u h =
      subst (λ k. svc.users.find_one (by_id k) db.users ≡ some u) (sym (user-id hash c u h)) h.user

  abbrev new_hash : Text → Text
  new_hash password = hash_password svc.scrypt env.salt password

  rows-confirmed_sessions :
      (password : Text) (c : Confirm) (u : User)
      → svc.sessions.rows (confirmed password c u).sessions
        ≡ filter (of_others u.id) (svc.sessions.rows db.sessions)
  unfolding Sessions.soft_delete
  rows-confirmed_sessions password c u =
      svc.sessions.rows-remove (record { id = none; user = some u.id }) db.sessions

  rows-confirmed_confirms :
      (password : Text) (c : Confirm) (u : User)
      → svc.confirms.rows (confirmed password c u).confirms
        ≡ filter (λ r. not (Confirms.has_id c.id r)) (svc.confirms.rows db.confirms)
  unfolding Confirms.delete
  rows-confirmed_confirms password c u = rw (
    svc.confirms.rows-remove (record { id = some c.id; hash = none }) db.confirms,
    fun_ext (not-fits c.id),
  )

  -- A stored token that has not expired sets the new password and the status "active" of its user,
  -- deletes the token and deletes every session of the user. The row of the user is the only one
  -- that changes in the table of users; the sessions of others, the other tokens and the outbox
  -- stay. The password is not empty.
  pub confirm-IsConfirmable :
      (dto : ConfirmDto) (c : Confirm) (u : User)
      → IsConfirmable dto.hash c u
      → truthy dto.password ≡ true
      → let (answer, db') = confirm svc env dto db in
        (answer ≡ ok tt)
        × (svc.users.find_one (by_id u.id) db'.users
            ≡ some (with_password (new_hash dto.password) (some active) u))
        × (svc.users.rows db'.users
            ≡ update_rows
                (Users.has_id u.id)
                (with_password (new_hash dto.password) (some active))
                (svc.users.rows db.users))
        × (svc.sessions.rows db'.sessions ≡ filter (of_others u.id) (svc.sessions.rows db.sessions))
        × (svc.confirms.rows db'.confirms
            ≡ filter (λ r. not (Confirms.has_id c.id r)) (svc.confirms.rows db.confirms))
        × (db'.outbox ≡ db.outbox)
  confirm-IsConfirmable dto c u h t = rw (confirm_lem dto c u h) (
    refl,
    find_one-after_self svc.users svc.scrypt env.salt dto.password u.id (some active) db.users u
        (by_id u.id) t (own-user dto.hash c u h) (own-user dto.hash c u h),
    rows-after svc.users svc.scrypt env.salt dto.password u.id (some active) db.users u t
        (own-user dto.hash c u h),
    rows-confirmed_sessions dto.password c u,
    rows-confirmed_confirms dto.password c u,
    refl,
  )

module _ {U S C : Type 0} (svc : Services U S C) (env env' : Env) (db : Db U S C) where
  gone :
      (dto : ConfirmDto) (c : Confirm) (u : User)
      → IsUnique svc env db dto.hash c.id
      → Confirms.find_one svc.confirms dto.hash (confirmed svc env db dto.password c u).confirms
        ≡ none
  gone dto c u unique =
      rw
        (
          svc.confirms.find_one-rows (record { id = none; hash = some dto.hash })
              (confirmed svc env db dto.password c u).confirms,
          rows-confirmed_confirms svc env db dto.password c u,
        )
        (first-filter-none_of_All (λ r. not (Confirms.has_id c.id r)) (λ r. text_eq r.hash dto.hash)
          (svc.confirms.rows db.confirms)
          (All-map _ _ (svc.confirms.rows db.confirms) (λ r f e. ap not (f e)) unique))

  -- Where no other stored token has the same hash, a token that was confirmed is refused when it
  -- comes back, and then nothing changes.
  pub confirm_once :
      (dto dto' : ConfirmDto) (c : Confirm) (u : User)
      → IsConfirmable svc env db dto.hash c u
      → dto'.hash ≡ dto.hash
      → IsUnique svc env db dto.hash c.id
      → let db' = (confirm svc env dto db).1 in
        confirm svc env' dto' db' ≡ (err (unprocessable user_is_not_exist), db')
  confirm_once dto dto' c u h same unique =
      (confirm_refused svc env' (confirm svc env dto db).1 dto').0
        (rw (same, confirm_lem svc env db dto c u h) (gone dto c u unique))

  -- After a confirmation the user can log in with the new password, at the email that finds it;
  -- the salt that was drawn holds no dot.
  pub validate_login-confirm :
      (dto : ConfirmDto) (c : Confirm) (u : User)
      → IsKeyDerivation svc.scrypt
      → Lacks b'.' env.salt
      → truthy dto.password ≡ true
      → IsConfirmable svc env db dto.hash c u
      → svc.users.find_one (by_email u.email) db.users ≡ some u
      → (validate_login svc env'
          (record { email = u.email; password = dto.password })
          (confirm svc env dto db).1).0
        ≡ ok (
          tokens_data svc env' u.id u.role env'.new_id env'.random_hash,
          with_password (hash_password svc.scrypt env.salt dto.password) (some active) u,
        )
  validate_login-confirm dto c u sound dotless t h mail =
      (validate_login-IsLogin svc env' (confirm svc env dto db).1
        (record { email = u.email; password = dto.password })
        (with_password (new_hash svc env db dto.password) (some active) u)
        (record {
          found = rw (confirm_lem svc env db dto c u h) (
              find_one-after_self svc.users svc.scrypt env.salt dto.password u.id (some active)
                db.users u (by_email u.email) t (own-user svc env db dto.hash c u h) mail);
          confirmed = active-ne_pending;
          hash = new_hash svc env db dto.password;
          stored = refl;
          matched = compare_password_self svc.scrypt sound env.salt dto.password dotless;
        })).0
