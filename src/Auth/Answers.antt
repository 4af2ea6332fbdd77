-- ===== src/Auth/Answers.antt =====
-- Every request but those that set a password keeps the tables sound, and on sound tables none ends in
-- an internal error.
use vethealth_backend.Auth.Registration.{registered}
use vethealth_backend.Auth.Login.{ne_of_is_pending}
use vethealth_backend.Repository.Rows.{first_of_any}
use vethealth_backend.Base.{
  subst, Option, ◌+◌, codes, ◌≡◌, refl, sym, ◌∙◌, ap, ◌≢◌, inl, inr, true, some, none, Text,
  All-first, Lacks, arith, text_eq, Bool-cases, Option-cases,
}
use vethealth_backend.Password.{dummy_password_hash, compare_password}
use vethealth_backend.Password.RoundTrip.{IsKeyDerivation, compare_password-dummy}
use vethealth_backend.Users
use vethealth_backend.Users.{active, User, pending, is_pending, by_id, by_email}
use vethealth_backend.Auth.{
  pure, ◌>>◌, ok, tokens_data, Result, Services, Env, Db, Action, LoginDto, RegisterDto, err, fault,
  validate_login, logout, register, get_pending_user, request_reset, current_user, refresh_tokens,
}
use vethealth_backend.Auth.Sessions
use vethealth_backend.Auth.Sessions.{Session}
use vethealth_backend.Auth.Confirms
use vethealth_backend.Auth.Confirms.{Confirm}
use vethealth_backend.Auth.SessionRows.{rehashed, has_row, found-id}
use vethealth_backend.Auth.Soundness.{
  found-own, create-Exists, HasPassword, Exists, Holds, compare_password-IsHash, found-HasPassword,
  Holds-create_session, Holds-update_session, Holds-delete_sessions, Holds-create_confirm,
  Holds-create_user,
}

module _ {U S C : Type 0} (svc : Services U S C) (env : Env) (sound : IsKeyDerivation svc.scrypt)
    (dotless : Lacks b'.' env.salt) where
  -- The tables stay sound, and the answer is no internal error.
  abbrev pub Fine : {A : Type 0} → Action (Db U S C) A → Db U S C → Type 0
  Fine m db = Holds svc (m db).1 × ((m db).0 ≢ err fault)

  pub Fine-pair :
      {A : Type 0} (m : Action (Db U S C) A) (db db' : Db U S C) (r : Result A)
      → m db ≡ (r, db')
      → Holds svc db'
      → r ≢ err fault
      → Fine m db
  Fine-pair m db db' r e h n = rw e (h, n)

  -- The comparison with the dummy hash, and the one with a stored hash, as a case lemma.
  pub compare_dummy :
      (password : Text)
      → (valid : _) × (compare_password svc.scrypt password dummy_password_hash ≡ some valid)
  compare_dummy password =
      elim (Option-cases (compare_password svc.scrypt password dummy_password_hash)) [
        | inl e ↦ absurd (compare_password-dummy svc.scrypt sound password e)
        | inr h ↦ h
      ]

  pub compare_stored :
      (password : Text) (u : User)
      → HasPassword svc.scrypt u
      → u.status ≢ pending
      → (hash : Text) × (valid : _) × (u.password ≡ some hash)
        × (compare_password svc.scrypt password hash ≡ some valid)
  compare_stored password u (inl (e, p)) ne = absurd (ne p)
  compare_stored password u (inr (hash, e, h)) ne =
      elim (Option-cases (compare_password svc.scrypt password hash)) [
        | inl f ↦ absurd (compare_password-IsHash svc.scrypt sound password hash h f)
        | inr (valid, f) ↦ (hash, valid, e, f)
      ]

  -- A user whose id is in the table is found.
  pub found_user :
      (db : Db U S C) (k : Text)
      → Exists (svc.users.rows db.users) k
      → (u : User) × (svc.users.find_one (by_id k) db.users ≡ some u)
  found_user db k e =
      let (u, f) =
        first_of_any (Users.has_id k) (Users.fits_user (by_id k)) (svc.users.rows db.users)
          (λ r t. ground arith) e in
      (u, svc.users.find_one-rows (by_id k) db.users ∙ f)

  pub confirm_user :
      (db : Db U S C) (hash : Text) (c : Confirm)
      → Holds svc db
      → Confirms.find_one svc.confirms hash db.confirms ≡ some c
      → (u : User) × (svc.users.find_one (by_id c.user) db.users ≡ some u)
  confirm_user db hash c h f = found_user db c.user (
      All-first _ _ (svc.confirms.rows db.confirms) c h.confirm_users
        (sym (svc.confirms.find_one-rows _ db.confirms) ∙ f))

  pub session_user :
      (db : Db U S C) (k : Text) (s : Session)
      → Holds svc db
      → Sessions.find_one svc.sessions k db.sessions ≡ some s
      → (u : User) × (svc.users.find_one (by_id s.user) db.users ≡ some u)
  session_user db k s h f = found_user db s.user (
      All-first _ _ (svc.sessions.rows db.sessions) s h.session_users
        (sym (svc.sessions.find_one-rows _ db.sessions) ∙ f))

  pub logs_in-Fine :
      (db : Db U S C) (dto : LoginDto) → Holds svc db → Fine (validate_login svc env dto) db
  unfolding validate_login Sessions.create
  logs_in-Fine db dto h = elim (Option-cases (svc.users.find_one (by_email dto.email) db.users)) [
    | inl f ↦ let (valid, e) = compare_dummy dto.password in rw (f, e) (h, λ x. cc)
    | inr (u, f) ↦ elim (Bool-cases (is_pending u.status)) [
      | inl p ↦ let (valid, e) = compare_dummy dto.password in rw (f, p, e) (h, λ x. cc)
      | inr p ↦
          let (hash, valid, q, e) =
            compare_stored dto.password u (found-HasPassword svc db (by_email dto.email) u h f)
              (ne_of_is_pending u.status p) in
          elim (Bool-cases valid) [
            | inl t ↦
                rw (f, p, q, e, t)
                  (
                    Holds-create_session svc db _ h (found-own svc db (by_email dto.email) u f),
                    λ x. cc,
                  )
            | inr t ↦ rw (f, p, q, e, t) (h, λ x. cc)
          ]
    ]
  ]

  pub logs_out-Fine :
      (db : Db U S C) (session_id : Option Text)
      → Holds svc db
      → Fine (logout svc env session_id) db
  unfolding logout
  logs_out-Fine db session_id h = (Holds-delete_sessions svc db _ h, λ x. cc)

  pub asks_current-Fine :
      (db : Db U S C) (user_id : Text) → Holds svc db → Fine (current_user svc env user_id) db
  unfolding current_user
  asks_current-Fine db user_id h = (h, λ x. cc)

  -- An answer that is left out.
  pub finish-Fine :
      {A : Type 0} (r : Result A) (db : Db U S C)
      → Holds svc db
      → r ≢ err fault
      → Fine ((λ d. (r, d)) >> pure tt) db
  finish-Fine (ok a) db h n = (h, λ x. cc)
  finish-Fine (err x) db h n = (h, λ same. let e : x ≡ fault = cc in n (ap err e))

  pub void-Fine :
      {A : Type 0} (m : Action (Db U S C) A) (db : Db U S C) → Fine m db → Fine (m >> pure tt) db
  void-Fine m db (h, n) = finish-Fine (m db).0 (m db).1 h n

  pub asks_pending-Fine :
      (db : Db U S C) (hash : Text) → Holds svc db → Fine (get_pending_user svc env hash) db
  unfolding get_pending_user
  asks_pending-Fine db hash h =
      elim (Option-cases (Confirms.find_one svc.confirms hash db.confirms)) [
        | inl f ↦ rw f (h, λ x. cc)
        | inr (c, f) ↦
            let (u, g) = confirm_user db hash c h f in
            Fine-pair (get_pending_user svc env hash) db db
              (ok (record { id = none; firstname = u.firstname; email = u.email })) (ground arith) h
              (λ x. cc)
      ]

  pub refreshed-Fine :
      (db : Db U S C) (session_id hash : Text) (s : Session)
      → Holds svc db
      → Sessions.find_one svc.sessions session_id db.sessions ≡ some s
      → text_eq s.hash hash ≡ true
      → Fine (refresh_tokens svc env session_id hash) db
  unfolding refresh_tokens
  refreshed-Fine db session_id hash s h f t =
      let (u, g) = session_user db session_id s h f in
      let own = found-id svc db session_id s f in
      Fine-pair (refresh_tokens svc env session_id hash) db (rehashed svc env s.id db)
        (ok (tokens_data svc env u.id u.role s.id env.random_hash)) (ground arith)
        (Holds-update_session svc db s.id env.random_hash h (
          has_row svc db s.id s
            (subst (λ k. Sessions.find_one svc.sessions k db.sessions ≡ some s) (sym own) f)))
        (λ x. cc)

  pub refreshes-Fine :
      (db : Db U S C) (session_id hash : Text)
      → Holds svc db
      → Fine (refresh_tokens svc env session_id hash) db
  unfolding refresh_tokens
  refreshes-Fine db session_id hash h =
      elim (Option-cases (Sessions.find_one svc.sessions session_id db.sessions)) [
        | inl f ↦ rw f (h, λ x. cc)
        | inr (s, f) ↦ elim (Bool-cases (text_eq s.hash hash)) [
          | inl t ↦ refreshed-Fine db session_id hash s h f t
          | inr t ↦ rw (f, t) (Holds-delete_sessions svc db _ h, λ x. cc)
        ]
      ]

  pub registers-Fine :
      (db : Db U S C) (dto : RegisterDto) → Holds svc db → Fine (register svc env dto) db
  unfolding register
  registers-Fine db dto h =
      let after = Holds-create_user svc db env.salt (registered svc env db dto) h refl refl in
      let made : Db U S C = record db {
        users = (Users.create svc.users svc.scrypt env.salt (registered svc env db dto) db.users).1;
      } in
      let invited =
        Holds-create_confirm svc made env.new_confirm_id env.random_hash env.new_id
          (env.now + svc.ms (codes "1d")) after
          (create-Exists svc db env.salt (registered svc env db dto)) in
      elim (Bool-cases env.mail_up) [
        | inl up ↦ rw up (invited, λ x. cc)
        | inr down ↦ rw down (invited, λ x. cc)
      ]

  pub forgets-Fine :
      (db : Db U S C) (email : Text) → Holds svc db → Fine (request_reset svc env email) db
  unfolding request_reset
  forgets-Fine db email h = elim (Option-cases (svc.users.find_one (by_email email) db.users)) [
    | inl f ↦ rw f (h, λ x. cc)
    | inr (u, f) ↦
        let invited =
          Holds-create_confirm svc db env.new_confirm_id env.random_hash u.id
            (env.now + svc.ms (codes "1d")) h (found-own svc db (by_email email) u f) in
        elim (Bool-cases env.mail_up) [
          | inl up ↦ rw (f, up) (invited, λ x. cc)
          | inr down ↦ rw (f, down) (invited, λ x. cc)
        ]
  ]
