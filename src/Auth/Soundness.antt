-- ===== src/Auth/Soundness.antt =====
-- What the tables of the authentication service keep: passwords that can be compared, and users
-- behind the sessions and the tokens.
use vethealth_backend.Base.{
  text_eq_refl, first_sound, ◌≡◌, refl, sym, subst, ◌∙◌, ◌≢◌, ◌⊎◌, inl, inr, true, not, ℕ, Option,
  none, some, List, Text, truthy, All, All-map, All-append, All-filter, All-first, any, arith,
  Lacks,
}
use vethealth_backend.Password.{hash_password, compare_password}
use vethealth_backend.Password.RoundTrip.{IsKeyDerivation, compare_password-hash_password}
use vethealth_backend.Repository.Rows.{
  any-append_last, any_of_first, All-update_rows, any-update_rows, any-append,
}
use vethealth_backend.Users
use vethealth_backend.Users.{UserWhere, set_password, User, UserStatusEnum, active, pending, by_id}
use vethealth_backend.Auth.{Services, Db, password_patch}
use vethealth_backend.Auth.Sessions
use vethealth_backend.Auth.Sessions.{Session, Criteria, delete_where, fits_session}
use vethealth_backend.Auth.Confirms
use vethealth_backend.Auth.Confirms.{Confirm, fits_confirm}
use vethealth_backend.Auth.UserRows.{with_password, rows-after}

-- A text that `hashPassword` made, with a salt that has no dot.
pub record IsHash (scrypt : Text → Text → ℕ → List ℕ) (hash : Text) : Type 0 where
  pub salt : Text
  pub password : Text
  pub dotless : Lacks b'.' salt
  pub made : hash ≡ hash_password scrypt salt password

-- Only a pending user may be without a password, and a password is stored hashed.
abbrev pub HasPassword : (Text → Text → ℕ → List ℕ) → User → Type 0
HasPassword scrypt u =
    ((u.password ≡ none) × (u.status ≡ pending))
    ⊎ ((hash : Text) × (u.password ≡ some hash) × IsHash scrypt hash)

abbrev pub Exists : List User → Text → Type 0
Exists users k = any (Users.has_id k) users ≡ true

pub record IsSound (scrypt : Text → Text → ℕ → List ℕ) (users : List User) (sessions : List Session)
    (confirms : List Confirm) : Type 0 where
  pub passwords : All (HasPassword scrypt) users
  pub session_users : All (λ s. Exists users s.user) sessions
  pub confirm_users : All (λ c. Exists users c.user) confirms

-- A password is compared with a stored hash without an exception.
pub compare_password-IsHash :
    (scrypt : Text → Text → ℕ → List ℕ) (sound : IsKeyDerivation scrypt) (password hash : Text)
    → IsHash scrypt hash
    → compare_password scrypt password hash ≢ none
compare_password-IsHash scrypt sound password hash h =
    rw (h.made, compare_password-hash_password scrypt sound h.salt h.password password h.dotless)
      (cc)

with_password-HasPassword :
    (scrypt : Text → Text → ℕ → List ℕ) (salt password : Text) (status : Option UserStatusEnum)
    (u : User)
    → Lacks b'.' salt
    → HasPassword scrypt (with_password (hash_password scrypt salt password) status u)
with_password-HasPassword scrypt salt password status u dotless = inr (
  hash_password scrypt salt password,
  refl,
  record { salt = salt; password = password; dotless = dotless; made = refl },
)

-- The relation to a user is kept by a change of the users that keeps their ids.
abbrev IsWider : List User → List User → Type 0
IsWider users users' = (k : Text) → Exists users k → Exists users' k

wider :
    (scrypt : Text → Text → ℕ → List ℕ) (users users' : List User) (sessions : List Session)
    (confirms : List Confirm)
    → IsWider users users'
    → All (HasPassword scrypt) users'
    → IsSound scrypt users sessions confirms
    → IsSound scrypt users' sessions confirms
wider scrypt users users' sessions confirms grow passwords h = record {
  passwords = passwords;
  session_users = All-map _ _ sessions (λ s. grow s.user) h.session_users;
  confirm_users = All-map _ _ confirms (λ c. grow c.user) h.confirm_users;
}

module _ {U S C : Type 0} (svc : Services U S C) where
  abbrev pub Holds : Db U S C → Type 0
  Holds db =
      IsSound svc.scrypt (svc.users.rows db.users) (svc.sessions.rows db.sessions)
        (svc.confirms.rows db.confirms)

  -- A user who is found has a row, and its password is as the others'.
  pub found-Exists :
      (db : Db U S C) (k : Text) (u : User)
      → svc.users.find_one (by_id k) db.users ≡ some u
      → Exists (svc.users.rows db.users) k
  found-Exists db k u e =
      let h = sym (svc.users.find_one-rows (by_id k) db.users) ∙ e in
      any_of_first (Users.fits_user (by_id k)) (Users.has_id k) (svc.users.rows db.users) u h
        (ground (arith, first_sound (Users.fits_user (by_id k)) (svc.users.rows db.users) u h))

  -- The same, for a user that is found in any way.
  pub found-own :
      (db : Db U S C) (w : UserWhere) (u : User)
      → svc.users.find_one w db.users ≡ some u
      → Exists (svc.users.rows db.users) u.id
  found-own db w u e =
      any_of_first (Users.fits_user w) (Users.has_id u.id) (svc.users.rows db.users) u
        (sym (svc.users.find_one-rows w db.users) ∙ e) (text_eq_refl u.id)

  pub found-HasPassword :
      (db : Db U S C) (w : UserWhere) (u : User)
      → Holds db
      → svc.users.find_one w db.users ≡ some u
      → HasPassword svc.scrypt u
  found-HasPassword db w u h e =
      All-first _ (Users.fits_user w) (svc.users.rows db.users) u h.passwords
        (sym (svc.users.find_one-rows w db.users) ∙ e)

  pub Holds-create_session :
      (db : Db U S C) (s : Session)
      → Holds db
      → Exists (svc.users.rows db.users) s.user
      → Holds (record db { sessions = svc.sessions.insert s db.sessions })
  Holds-create_session db s h e = record {
    passwords = h.passwords;
    session_users =
        subst (All _) (sym (svc.sessions.rows-insert s db.sessions))
          (All-append _ _ _ h.session_users (e, tt));
    confirm_users = h.confirm_users;
  }

  pub Holds-update_session :
      (db : Db U S C) (k hash : Text)
      → Holds db
      → any (Sessions.has_id k) (svc.sessions.rows db.sessions) ≡ true
      → Holds (record db { sessions = Sessions.update svc.sessions k hash db.sessions })
  unfolding Sessions.update
  Holds-update_session db k hash h e = record {
    passwords = h.passwords;
    session_users = subst (All _) (sym (svc.sessions.rows-update k _ db.sessions e)) (
        All-update_rows _ (Sessions.has_id k) _ (svc.sessions.rows db.sessions) (λ s p. p)
          h.session_users);
    confirm_users = h.confirm_users;
  }

  pub Holds-delete_sessions :
      (db : Db U S C) (c : Criteria)
      → Holds db
      → Holds (record db { sessions = Sessions.soft_delete svc.sessions c db.sessions })
  unfolding Sessions.soft_delete
  Holds-delete_sessions db c h = record {
    passwords = h.passwords;
    session_users =
        subst (All _) (sym (svc.sessions.rows-remove (delete_where c) db.sessions))
          (All-filter _ (λ s. not (fits_session (delete_where c) s)) _ h.session_users);
    confirm_users = h.confirm_users;
  }

  pub Holds-create_confirm :
      (db : Db U S C) (id hash user : Text) (expires_in : ℕ)
      → Holds db
      → Exists (svc.users.rows db.users) user
      → Holds (record db {
        confirms = Confirms.create svc.confirms id hash user expires_in db.confirms;
      })
  unfolding Confirms.create
  Holds-create_confirm db id hash user expires_in h e = record {
    passwords = h.passwords;
    session_users = h.session_users;
    confirm_users =
        subst (All _) (sym (svc.confirms.rows-insert _ db.confirms))
          (All-append _ _ _ h.confirm_users (e, tt));
  }

  pub Holds-delete_confirm :
      (db : Db U S C) (k : Text)
      → Holds db
      → Holds (record db { confirms = Confirms.delete svc.confirms k db.confirms })
  unfolding Confirms.delete
  Holds-delete_confirm db k h = record {
    passwords = h.passwords;
    session_users = h.session_users;
    confirm_users = subst (All _) (sym (svc.confirms.rows-remove _ db.confirms)) (
        All-filter _ (λ c. not (fits_confirm (record { id = some k; hash = none }) c)) _
          h.confirm_users);
  }

  -- A new user has no password and is pending.
  pub Holds-create_user :
      (db : Db U S C) (salt : Text) (u : User)
      → Holds db
      → u.password ≡ none
      → u.status ≡ pending
      → Holds (record db { users = (Users.create svc.users svc.scrypt salt u db.users).1 })
  unfolding Users.create set_password
  Holds-create_user db salt u h e p =
      wider svc.scrypt _ _ _ _
        (λ k x.
          subst (λ rows. Exists rows k) (sym (svc.users.rows-insert _ db.users))
            (any-append _ (svc.users.rows db.users) _ x))
        (subst (All _) (sym (svc.users.rows-insert _ db.users))
          (All-append _ _ _ h.passwords (inl (rw e refl, p), tt)))
        h

  pub create-Exists :
      (db : Db U S C) (salt : Text) (u : User)
      → Exists (svc.users.rows (Users.create svc.users svc.scrypt salt u db.users).1) u.id
  unfolding Users.create set_password
  create-Exists db salt u =
      subst (λ rows. Exists rows u.id) (sym (svc.users.rows-insert _ db.users))
        (any-append_last _ (svc.users.rows db.users) _ (text_eq_refl u.id))

  -- A new password of a user who is found.
  pub Holds-update_user :
      (db : Db U S C) (salt password k : Text) (status : Option UserStatusEnum) (u : User)
      → Holds db
      → Lacks b'.' salt
      → truthy password ≡ true
      → svc.users.find_one (by_id k) db.users ≡ some u
      → Holds (record db {
        users = Users.update svc.users svc.scrypt salt (password_patch k password status) db.users;
      })
  Holds-update_user db salt password k status u h dotless t e =
      let rows = sym (rows-after svc.users svc.scrypt salt password k status db.users u t e) in
      wider svc.scrypt _ _ _ _
        (λ j x.
          subst (λ r. Exists r j) rows
            (any-update_rows (Users.has_id j) (Users.has_id k) _ (svc.users.rows db.users)
                (λ r. refl)
              ∙ x))
        (subst (All _) rows (
          All-update_rows _ (Users.has_id k) _ (svc.users.rows db.users)
            (λ r _. with_password-HasPassword svc.scrypt salt password status r dotless)
            h.passwords))
        h
