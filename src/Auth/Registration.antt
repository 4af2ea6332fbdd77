-- ===== src/Auth/Registration.antt =====
-- The way from a registration to a login.
use vethealth_backend.Base.{
  ◌+◌, ◌≤◌, ◌≡◌, refl, ap, sym, ◌∙◌, inl, inr, Bool, true, none, some, Text, codes, first,
  text_eq_refl, truthy, arith, Lacks, Bool-cases,
}
use vethealth_backend.Password.{hash_password}
use vethealth_backend.Password.RoundTrip.{IsKeyDerivation}
use vethealth_backend.Repository.{Repository}
use vethealth_backend.Repository.Rows.{first-append_none}
use vethealth_backend.Users
use vethealth_backend.Users.{
  User, UserWhere, fits_user, active, pending, by_id, by_email, set_password,
}
use vethealth_backend.Auth.{
  Services, Env, Db, RegisterDto, ok, tokens_data, register, confirm, validate_login,
}
use vethealth_backend.Auth.Confirms
use vethealth_backend.Auth.Confirms.{Confirm, ConfirmWhere, fits_confirm}
use vethealth_backend.Auth.UserRows.{with_password}
use vethealth_backend.Auth.Confirmation.{IsConfirmable, validate_login-confirm}

-- A row that is inserted where none was found is found.
find_one-insert :
    {R W S : Type 0} {fits : W → R → Bool} {has : Text → R → Bool}
    (table : Repository R W S fits has) (w : W) (s : S) (r : R)
    → table.find_one w s ≡ none
    → fits w r ≡ true
    → table.find_one w (table.insert r s) ≡ some r
find_one-insert {fits = fits} table w s r e h =
    table.find_one-rows w (table.insert r s)
    ∙ ap (first (fits w)) (table.rows-insert r s)
    ∙ first-append_none (fits w) (table.rows s) r (sym (table.find_one-rows w s) ∙ e) h

module _ {U S C : Type 0} (svc : Services U S C) (env : Env) (db : Db U S C)
    (dto : RegisterDto) where
  -- The user and the token that a registration makes.
  abbrev pub registered : User
  registered = record {
    id = env.new_id;
    firstname = dto.firstname;
    lastname = dto.lastname;
    email = dto.email;
    password = none;
    role = dto.role;
    status = pending;
    topics = dto.topics;
  }

  abbrev pub invitation : Confirm
  invitation = record {
    id = env.new_confirm_id;
    hash = env.random_hash;
    user = env.new_id;
    expires_in = env.now + svc.ms (codes "1d");
  }

  -- The id, the email and the hash are new.
  pub record IsNew : Type 0 where
    pub id : svc.users.find_one (by_id env.new_id) db.users ≡ none
    pub email : svc.users.find_one (by_email dto.email) db.users ≡ none
    pub hash : Confirms.find_one svc.confirms env.random_hash db.confirms ≡ none

  users-register : (register svc env dto db).1.users ≡ svc.users.insert registered db.users
  unfolding register Users.create set_password
  users-register = elim (Bool-cases env.mail_up) [ inl e ↦ rw e refl | inr e ↦ rw e refl ]

  confirms-register :
      (register svc env dto db).1.confirms ≡ svc.confirms.insert invitation db.confirms
  unfolding register Confirms.create
  confirms-register = elim (Bool-cases env.mail_up) [ inl e ↦ rw e refl | inr e ↦ rw e refl ]

  register-IsConfirmable :
      (env' : Env)
      → IsNew
      → env'.now ≤ env.now + svc.ms (codes "1d")
      → IsConfirmable svc env' (register svc env dto db).1 env.random_hash invitation registered
  register-IsConfirmable env' h t = record {
    found =
        ap (Confirms.find_one svc.confirms env.random_hash) confirms-register
        ∙ find_one-insert svc.confirms (record { id = none; hash = some env.random_hash })
            db.confirms invitation h.hash (ground (arith, text_eq_refl env.random_hash));
    fresh = t;
    user =
        ap (svc.users.find_one (by_id env.new_id)) users-register
        ∙ find_one-insert svc.users (by_id env.new_id) db.users registered h.id
            (ground (arith, text_eq_refl env.new_id));
  }

  -- A registered user who confirms with the hash of the mail within a day can log in with the
  -- password given there, whether or not the mail went out. The id, the email and the hash of the
  -- registration are new, the password is not empty, and the salt holds no dot.
  pub validate_login-register :
      (env' env'' : Env) (password : Text)
      → IsKeyDerivation svc.scrypt
      → Lacks b'.' env'.salt
      → truthy password ≡ true
      → IsNew
      → env'.now ≤ env.now + svc.ms (codes "1d")
      → (validate_login svc env''
          (record { email = dto.email; password = password })
          (confirm svc env'
            (record { hash = env.random_hash; password = password })
            (register svc env dto db).1).1).0
        ≡ ok (
          tokens_data svc env'' env.new_id dto.role env''.new_id env''.random_hash,
          with_password (hash_password svc.scrypt env'.salt password) (some active) registered,
        )
  validate_login-register env' env'' password sound dotless p h t =
      validate_login-confirm svc env' env'' (register svc env dto db).1
        (record { hash = env.random_hash; password = password }) invitation registered sound dotless
        p (register-IsConfirmable env' h t)
        (ap (svc.users.find_one (by_email dto.email)) users-register
          ∙ find_one-insert svc.users (by_email dto.email) db.users registered h.email
              (ground (arith, text_eq_refl dto.email)))
