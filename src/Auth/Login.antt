-- ===== src/Auth/Login.antt =====
-- Which logins succeed, what they write, and what a failed one tells.
use vethealth_backend.Base.{
  ◌≡◌, refl, ap, ◌≢◌, Bool-cases, ◌⊎◌, inl, inr, true, false, some, [], ◌∷◌, ◌++◌, Option-cases,
  Text,
}
use mathlib.Core.Path.{subst}
use vethealth_backend.Password.{dummy_password_hash, compare_password}
use vethealth_backend.Password.RoundTrip.{IsKeyDerivation, compare_password-dummy}
use vethealth_backend.Users.{User, UserStatusEnum, active, pending, blocked, is_pending, by_email}
use vethealth_backend.Auth.{
  Services, Env, Db, LoginDto, Tokens, Error, ok, err, unprocessable, incorrect_email_or_password,
  fault, tokens_data, validate_login,
}
use vethealth_backend.Auth.Sessions
use vethealth_backend.Auth.Sessions.{Session}

is_pending_of_ne : (s : UserStatusEnum) → s ≢ pending → is_pending s ≡ false
is_pending_of_ne active h = refl
is_pending_of_ne pending h = absurd (h refl)
is_pending_of_ne blocked h = refl

pub ne_of_is_pending : (s : UserStatusEnum) → is_pending s ≡ false → s ≢ pending
ne_of_is_pending s h e = cc (ap is_pending e)

module _ {U S C : Type 0} (svc : Services U S C) (env : Env) (db : Db U S C) where
  -- The password is the one of a user that is not pending.
  pub record IsLogin (dto : LoginDto) (u : User) : Type 0 where
    pub found : svc.users.find_one (by_email dto.email) db.users ≡ some u
    pub confirmed : u.status ≢ pending
    pub hash : Text
    pub stored : u.password ≡ some hash
    pub matched : compare_password svc.scrypt dto.password hash ≡ some true

  -- The session that a login of a user opens.
  abbrev pub opened : User → Session
  opened u = record { id = env.new_id; user = u.id; hash = env.random_hash }

  -- What a login by `u` leaves behind.
  abbrev logged_in : User → Db U S C
  logged_in u = record db { sessions = svc.sessions.insert (opened u) db.sessions }

  validate_login_lem :
      (dto : LoginDto) (u : User)
      → IsLogin dto u
      → validate_login svc env dto db
        ≡ (ok (tokens_data svc env u.id u.role env.new_id env.random_hash, u), logged_in u)
  unfolding validate_login Sessions.create
  validate_login_lem dto u h =
      rw (h.found, is_pending_of_ne u.status h.confirmed, h.stored, h.matched)

  -- A login succeeds for a user who is not pending and whose password matches. It returns that user
  -- and tokens for the new session; it adds that session behind the others and changes nothing else.
  pub validate_login-IsLogin :
      (dto : LoginDto) (u : User)
      → IsLogin dto u
      → ((validate_login svc env dto db).0
          ≡ ok (tokens_data svc env u.id u.role env.new_id env.random_hash, u))
        × (svc.sessions.rows (validate_login svc env dto db).1.sessions
            ≡ svc.sessions.rows db.sessions ++ (opened u ∷ []))
        × ((validate_login svc env dto db).1.users ≡ db.users)
        × ((validate_login svc env dto db).1.confirms ≡ db.confirms)
        × ((validate_login svc env dto db).1.outbox ≡ db.outbox)
  validate_login-IsLogin dto u h =
      rw (validate_login_lem dto u h)
        (refl, svc.sessions.rows-insert (opened u) db.sessions, refl, refl, refl)

  abbrev Fails : LoginDto → Type 0
  Fails dto = (x : Error) × (validate_login svc env dto db ≡ (err x, db))

  IsLogin-dichotomy : (dto : LoginDto) → ((u : User) × IsLogin dto u) ⊎ Fails dto
  unfolding validate_login
  IsLogin-dichotomy dto = elim (Option-cases (svc.users.find_one (by_email dto.email) db.users)) [
    | inl f ↦ elim (Option-cases (compare_password svc.scrypt dto.password dummy_password_hash)) [
      | inl e ↦ inr (fault, rw (f, e))
      | inr (_, e) ↦ inr (unprocessable incorrect_email_or_password, rw (f, e))
    ]
    | inr (u, f) ↦ elim (Bool-cases (is_pending u.status)) [
      | inl p ↦ elim (Option-cases (compare_password svc.scrypt dto.password dummy_password_hash)) [
        | inl e ↦ inr (fault, rw (f, p, e))
        | inr (_, e) ↦ inr (unprocessable incorrect_email_or_password, rw (f, p, e))
      ]
      | inr p ↦ elim (Option-cases u.password) [
        | inl q ↦ inr (fault, rw (f, p, q))
        | inr (hash, q) ↦ elim (Option-cases (compare_password svc.scrypt dto.password hash)) [
          | inl e ↦ inr (fault, rw (f, p, q, e))
          | inr (true, e) ↦ inl (
            u,
            record {
              found = f;
              confirmed = ne_of_is_pending u.status p;
              hash = hash;
              stored = q;
              matched = e;
            },
          )
          | inr (false, e) ↦ inr (unprocessable incorrect_email_or_password, rw (f, p, q, e))
        ]
      ]
    ]
  ]

  -- A login that succeeds is one of those: the user that it returns is found by the email, is not
  -- pending, and has the password that was given.
  pub validate_login_sound :
      (dto : LoginDto) (t : Tokens) (u : User)
      → (validate_login svc env dto db).0 ≡ ok (t, u)
      → IsLogin dto u
  validate_login_sound dto t u e = elim (IsLogin-dichotomy dto) [
    | inl (v, h) ↦
        let same : v ≡ u = cc (ap (λ r. r.0) (validate_login_lem dto v h)) in
        subst (IsLogin dto) same h
    | inr (x, f) ↦ cc (ap (λ r. r.0) f)
  ]

  -- An unknown email, and the email of a user who has not confirmed it, get the same answer
  -- whatever the password, and nothing changes.
  pub validate_login_uniform :
      (dto : LoginDto)
      → IsKeyDerivation svc.scrypt
      → ((u : User)
          → svc.users.find_one (by_email dto.email) db.users ≡ some u
          → u.status ≡ pending)
      → validate_login svc env dto db ≡ (err (unprocessable incorrect_email_or_password), db)
  unfolding validate_login
  validate_login_uniform dto sound unconfirmed =
      elim (Option-cases (compare_password svc.scrypt dto.password dummy_password_hash)) [
        | inl e ↦ absurd (compare_password-dummy svc.scrypt sound dto.password e)
        | inr (_, e) ↦ elim (Option-cases (svc.users.find_one (by_email dto.email) db.users)) [
          | inl f ↦ rw (f, e)
          | inr (u, f) ↦ rw (f, ap is_pending (unconfirmed u f), e)
        ]
      ]
