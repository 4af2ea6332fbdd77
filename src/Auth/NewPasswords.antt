-- ===== src/Auth/NewPasswords.antt =====
-- The same for the two requests that set a password.
use vethealth_backend.Auth.Confirmation.{IsConfirmable, confirmed, confirm_lem, all_of, own-user}
use vethealth_backend.Base.{
  Option, ◌≡◌, ◌∙◌, ap, inl, inr, true, some, none, Text, truthy, Lacks, arith, ltb, Bool-cases,
  Option-cases,
}
use vethealth_backend.Password.{compare_password}
use vethealth_backend.Password.RoundTrip.{IsKeyDerivation}
use vethealth_backend.Users
use vethealth_backend.Users.{active, User, pending, is_pending, by_id, by_email}
use vethealth_backend.Auth.{
  password_patch, ok, Services, Env, Db, ConfirmDto, ChangePasswordDto, confirm, change_password,
}
use vethealth_backend.Auth.Sessions
use vethealth_backend.Auth.Sessions.{Session}
use vethealth_backend.Auth.Confirms
use vethealth_backend.Auth.Confirms.{Confirm}
use vethealth_backend.Auth.History.{changes, IsValid}
use vethealth_backend.Auth.Soundness.{
  Holds, found-HasPassword, Holds-delete_sessions, Holds-delete_confirm, Holds-update_user,
}
use vethealth_backend.Auth.Answers.{Fine, Fine-pair, compare_stored, confirm_user}

module _ {U S C : Type 0} (svc : Services U S C) (env : Env) (sound : IsKeyDerivation svc.scrypt)
    (dotless : Lacks b'.' env.salt) where
  abbrev pub cut_db : Db U S C → User → Db U S C
  cut_db db u = record db {
    sessions = Sessions.soft_delete svc.sessions (all_of svc env db u.id) db.sessions;
  }

  abbrev pub set_db : Db U S C → User → Text → Db U S C
  set_db db u password = record (cut_db db u) {
    users =
        Users.update svc.users svc.scrypt env.salt (password_patch u.id password (some active))
          db.users;
  }

  pub confirmed-Fine :
      (db : Db U S C) (dto : ConfirmDto) (c : Confirm) (u : User)
      → Holds svc db
      → truthy dto.password ≡ true
      → IsConfirmable svc env db dto.hash c u
      → Fine svc env sound dotless (confirm svc env dto) db
  confirmed-Fine db dto c u h t k =
      let cut = Holds-delete_sessions svc db (all_of svc env db u.id) h in
      let set =
        Holds-update_user svc (cut_db db u) env.salt dto.password u.id (some active) u cut dotless t
          (own-user svc env db dto.hash c u k) in
      Fine-pair svc env sound dotless (confirm svc env dto) db
        (confirmed svc env db dto.password c u) (ok tt) (confirm_lem svc env db dto c u k)
        (Holds-delete_confirm svc (set_db db u dto.password) c.id set) (λ x. cc)

  pub confirms-Fine :
      (db : Db U S C) (dto : ConfirmDto)
      → Holds svc db
      → truthy dto.password ≡ true
      → Fine svc env sound dotless (confirm svc env dto) db
  unfolding confirm
  confirms-Fine db dto h t =
      elim (Option-cases (Confirms.find_one svc.confirms dto.hash db.confirms)) [
        | inl f ↦ rw f (h, λ x. cc)
        | inr (c, f) ↦ elim (Bool-cases (ltb c.expires_in env.now)) [
          | inl late ↦ rw (f, late) (Holds-delete_confirm svc db c.id h, λ x. cc)
          | inr fresh ↦
              let (u, g) = confirm_user svc env sound dotless db dto.hash c h f in
              confirmed-Fine db dto c u h t (record { found = f; fresh = ground arith; user = g })
        ]
      ]

  pub changed-Fine :
      (db : Db U S C) (user_id : Text) (session_id : Option Text) (dto : ChangePasswordDto)
      (u : User) (hash : Text)
      → Holds svc db
      → truthy dto.password ≡ true
      → svc.users.find_one (by_id user_id) db.users ≡ some u
      → u.password ≡ some hash
      → compare_password svc.scrypt dto.old_password hash ≡ some true
      → Fine svc env sound dotless (change_password svc env user_id session_id dto) db
  unfolding change_password
  changed-Fine db user_id session_id dto u hash h t f q e =
      let set = Holds-update_user svc db env.salt dto.password user_id none u h dotless t f in
      let cut =
        Holds-delete_sessions svc
          (record db {
            users =
                Users.update svc.users svc.scrypt env.salt
                  (password_patch user_id dto.password none) db.users;
          })
          (record { id = none; user = some user_id; exclude_id = session_id }) set in
      elim (Bool-cases env.mail_up) [
        | inl up ↦ rw (f, q, e, up) (cut, λ x. cc)
        | inr down ↦ rw (f, q, e, down) (cut, λ x. cc)
      ]

  pub changes-Fine :
      (db : Db U S C) (user_id : Text) (session_id : Option Text) (dto : ChangePasswordDto)
      → Holds svc db
      → IsValid svc db (changes user_id session_id dto)
      → Fine svc env sound dotless (change_password svc env user_id session_id dto) db
  unfolding change_password
  changes-Fine db user_id session_id dto h (t, ne) =
      elim (Option-cases (svc.users.find_one (by_id user_id) db.users)) [
        | inl f ↦ rw f (h, λ x. cc)
        | inr (u, f) ↦
            let (hash, valid, q, e) =
              compare_stored svc env sound dotless dto.old_password u
                (found-HasPassword svc db (by_id user_id) u h f) (ne u f) in
            elim (Bool-cases valid) [
              | inl v ↦ changed-Fine db user_id session_id dto u hash h t f q (e ∙ ap some v)
              | inr v ↦ rw (f, q, e, v) (h, λ x. cc)
            ]
      ]
