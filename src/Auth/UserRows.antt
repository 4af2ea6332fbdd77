-- ===== src/Auth/UserRows.antt =====
-- How a new password shows in the table of users.
use mathlib.Core.Option
use vethealth_backend.Base.{
  ◌≡◌, refl, sym, ◌∙◌, ap, true, Option, none, some, List, [], ◌∷◌, arith, Text, ℕ, truthy,
  text_eq_iff, text_eq_refl, first_sound, Lacks,
}
use vethealth_backend.Password.{hash_password, compare_password}
use vethealth_backend.Password.RoundTrip.{IsKeyDerivation, compare_password-hash_password}
use vethealth_backend.Repository.{Repository, update_rows}
use vethealth_backend.Repository.Rows.{any_of_first, rewrite, first-update_rows}
use vethealth_backend.Users
use vethealth_backend.Users.{
  User, UserWhere, UserStatusEnum, fits_user, by_id, by_email, given, patched, set_password,
}
use vethealth_backend.Auth.{password_patch}

-- The user with the hash of a new password and, where it is given, a new status.
abbrev pub with_password : Text → Option UserStatusEnum → User → User
with_password hash status u = record u { password = some hash; status = given status u.status }

set_password-new :
    (scrypt : Text → Text → ℕ → List ℕ) (salt password : Text)
    → truthy password ≡ true
    → set_password scrypt salt none (some password) ≡ some (hash_password scrypt salt password)
unfolding set_password
set_password-new scrypt salt [] t = cc
set_password-new scrypt salt (c ∷ password) t = refl

-- The password that was hashed last is the one that matches.
pub compare_password_self :
    (scrypt : Text → Text → ℕ → List ℕ) (sound : IsKeyDerivation scrypt) (salt password : Text)
    → Lacks b'.' salt
    → compare_password scrypt password (hash_password scrypt salt password) ≡ some true
compare_password_self scrypt sound salt password dotless =
    compare_password-hash_password scrypt sound salt password password dotless
    ∙ ap some (text_eq_refl _)

module _ {U : Type 0} (users : Repository User UserWhere U fits_user Users.has_id)
    (scrypt : Text → Text → ℕ → List ℕ) (salt password k : Text)
    (status : Option UserStatusEnum) where
  abbrev after : U → U
  after s = Users.update users scrypt salt (password_patch k password status) s

  abbrev hashed : Text
  hashed = hash_password scrypt salt password

  found-id : (s : U) (u : User) → users.find_one (by_id k) s ≡ some u → u.id ≡ k
  found-id s u e =
      let h =
        first_sound (fits_user (by_id k)) (users.rows s) u
          (sym (users.find_one-rows (by_id k) s) ∙ e) in
      (text_eq_iff u.id k).0 (ground arith)

  abbrev rehash : User → User
  rehash = patched (password_patch k password status) (some hashed)

  after_lem : (s : U) → truthy password ≡ true → after s ≡ users.update k rehash s
  unfolding Users.update
  after_lem s t =
      ap (λ h. users.update k (patched (password_patch k password status) h) s)
        (set_password-new scrypt salt password t)

  pub rows-after :
      (s : U) (u : User)
      → truthy password ≡ true
      → users.find_one (by_id k) s ≡ some u
      → users.rows (after s)
        ≡ update_rows (Users.has_id k) (with_password hashed status) (users.rows s)
  rows-after s u t e =
      ap users.rows (after_lem s t)
      ∙ users.rows-update k rehash s (
          any_of_first (fits_user (by_id k)) (Users.has_id k) (users.rows s) u
            (sym (users.find_one-rows (by_id k) s) ∙ e) ((text_eq_iff u.id k).1 (found-id s u e)))

  -- A user is found as before, with the new password if it is the one that was changed.
  pub find_one-after :
      (s : U) (u : User) (w : UserWhere)
      → truthy password ≡ true
      → users.find_one (by_id k) s ≡ some u
      → users.find_one w (after s)
        ≡ Option.map (rewrite (Users.has_id k) (with_password hashed status)) (users.find_one w s)
  find_one-after s u w t e =
      rw (users.find_one-rows w (after s), rows-after s u t e, users.find_one-rows w s)
        (first-update_rows (fits_user w) (Users.has_id k) (with_password hashed status)
          (users.rows s) (λ r. refl))

  pub find_one-after_self :
      (s : U) (u : User) (w : UserWhere)
      → truthy password ≡ true
      → users.find_one (by_id k) s ≡ some u
      → users.find_one w s ≡ some u
      → users.find_one w (after s) ≡ some (with_password hashed status u)
  find_one-after_self s u w t e f =
      rw (find_one-after s u w t e, f) (ground (arith, text_eq_iff u.id k, found-id s u e))
