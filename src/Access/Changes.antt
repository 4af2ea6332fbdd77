-- ===== src/Access/Changes.antt =====
-- What the guards of the user routes let through.
use vethealth_backend.Base.{
  Bool-cases, ◌&&◌, ◌↔◌, ◌≡◌, refl, ap, sym, ◌∙◌, ◌⊎◌, inl, inr, Bool, true, false, not, Option,
  none, some, List, [], ◌∷◌, Text, text_eq, text_eq_iff, arith, filter, first_sound, All, any,
  Option-cases, if◌then◌else◌,
}
use vethealth_backend.Repository.{Repository}
use vethealth_backend.Users
use vethealth_backend.Users.{
  RoleEnum, super_admin, is_super_admin, is_admin, User, UserWhere, fits_user, by_id,
}
use vethealth_backend.Access.{
  Caller, Verdict, allow, forbidden, entered, Passport, caller_is_admin, caller_is_super_admin,
  caller_id, same, update_target, is_super_admin_id, UpdateBody, role_id, changes_rank,
  auth_data_guard, roles_guard, role_eq, update_user_guard, delete_user_guard, delete_user,
}

same_iff : (a b : Option Text) → (same a b ≡ true) ↔ (a ≡ b)
same_iff none none = ground arith
same_iff none (some t) = ground arith
same_iff (some s) none = ground arith
same_iff (some s) (some t) = ground (arith, text_eq_iff s t)

module _ {U : Type 0} (users : Repository User UserWhere U fits_user Users.has_id) where
  -- What must hold of a change that the guard lets through.
  pub record IsAllowed (caller : Option Caller) (body : UpdateBody) (target : User) : Type 0 where
    pub own : (caller_is_admin caller ≡ true) ⊎ (caller_id caller ≡ body.id)
    pub rank : (caller_is_admin caller ≡ true) ⊎ (changes_rank body ≡ false)
    pub super :
        (caller_is_super_admin caller ≡ true)
        ⊎ ((is_super_admin target.role ≡ false) ⊎ (changes_rank body ≡ false))
    pub promotion :
        (caller_is_super_admin caller ≡ true) ⊎ (is_super_admin_id (role_id body.role) ≡ false)

  abbrev guarded : Option Caller → UpdateBody → User → Verdict
  guarded caller body target =
      if not (caller_is_admin caller) && not (same (caller_id caller) body.id)
      then forbidden
      else if not (caller_is_admin caller) && changes_rank body
      then forbidden
      else update_target users caller body target

  allowed :
      (caller : Option Caller) (body : UpdateBody) (target : User)
      → guarded caller body target ≡ allow
      → IsAllowed caller body target
  allowed caller body target e = record {
    own = ground (arith, same_iff (caller_id caller) body.id);
    rank = ground arith;
    super = ground arith;
    promotion = ground arith;
  }

  allowing :
      (caller : Option Caller) (body : UpdateBody) (target : User)
      → IsAllowed caller body target
      → guarded caller body target ≡ allow
  allowing caller body target h = ground (arith, same_iff (caller_id caller) body.id)

  -- A change of a user is let through exactly for a target that is there, and under these
  -- conditions: the caller is an administrator, or changes the own data and neither role nor
  -- status; only a super administrator changes the role or the status of one, or hands the role on.
  pub update_user_guard-eq-allow_iff :
      (caller : Option Caller) (body : UpdateBody) (s : U)
      → (update_user_guard users caller body s ≡ allow) ↔ (
          (target : User) × (users.find_one (record { id = body.id; email = none }) s ≡ some target)
          × IsAllowed caller body target)
  unfolding update_user_guard
  update_user_guard-eq-allow_iff caller body s = (
    λ e. elim (Option-cases (users.find_one (record { id = body.id; email = none }) s)) [
      | inl f ↦ absurd (ground arith)
      | inr (target, f) ↦ (target, f, allowed caller body target (rw f at e))
    ],
    λ (target, f, h). rw f (allowing caller body target h),
  )

  -- Every row with the id is that user.
  abbrev pub IsOnly : User → U → Type 0
  IsOnly u s = All (λ r. text_eq r.id u.id ≡ true → r ≡ u) (users.rows s)

  super_admins-filter :
      (k : Text) (u : User) (rows : List User)
      → is_super_admin u.role ≡ false
      → u.id ≡ k
      → All (λ r. text_eq r.id u.id ≡ true → r ≡ u) rows
      → filter (λ r. is_super_admin r.role) (filter (λ r. not (fits_user (by_id k) r)) rows)
        ≡ filter (λ r. is_super_admin r.role) rows
  super_admins-filter k u [] n e h = refl
  super_admins-filter k u (r ∷ rows) n e h =
      ground (arith, super_admins-filter k u rows n e h.1, h.0)

  delete_user_absent :
      (k : Text) (s : U) → users.find_one (by_id k) s ≡ none → (delete_user users k s).1 ≡ s
  unfolding delete_user delete_user_guard
  delete_user_absent k s f = ground arith

  delete_user_super :
      (k : Text) (s : U) (u : User)
      → users.find_one (by_id k) s ≡ some u
      → is_super_admin u.role ≡ true
      → (delete_user users k s).1 ≡ s
  unfolding delete_user delete_user_guard
  delete_user_super k s u f h = ground arith

  delete_user_other :
      (k : Text) (s : U) (u : User)
      → users.find_one (by_id k) s ≡ some u
      → is_super_admin u.role ≡ false
      → (delete_user users k s).1 ≡ users.remove (by_id k) s
  unfolding delete_user delete_user_guard Users.soft_delete
  delete_user_other k s u f h = ground arith

  found-id : (k : Text) (s : U) (u : User) → users.find_one (by_id k) s ≡ some u → u.id ≡ k
  found-id k s u e =
      let h =
        first_sound (fits_user (by_id k)) (users.rows s) u
          (sym (users.find_one-rows (by_id k) s) ∙ e) in
      (text_eq_iff u.id k).0 (ground arith)

  abbrev supers : U → List User
  supers s = filter (λ r. is_super_admin r.role) (users.rows s)

  -- Where ids are unique, no request to delete a user removes a super administrator.
  pub delete_user_keeps :
      (k : Text) (s : U)
      → ((u : User) → users.find_one (by_id k) s ≡ some u → IsOnly u s)
      → filter (λ r. is_super_admin r.role) (users.rows (delete_user users k s).1)
        ≡ filter (λ r. is_super_admin r.role) (users.rows s)
  delete_user_keeps k s only = elim (Option-cases (users.find_one (by_id k) s)) [
    | inl f ↦ ap supers (delete_user_absent k s f)
    | inr (u, f) ↦ elim (Bool-cases (is_super_admin u.role)) [
      | inl h ↦ ap supers (delete_user_super k s u f h)
      | inr h ↦
          ap supers (delete_user_other k s u f h)
          ∙ ap (filter (λ r. is_super_admin r.role)) (users.rows-remove (by_id k) s)
          ∙ super_admins-filter k u (users.rows s) h (found-id k s u f) (only u f)
    ]
  ]

-- A route for some roles is entered, past both global guards, only by a caller of one of these
-- roles, also where the route is marked public or optional besides.
pub roles_guard_sound :
    (is_public is_optional : Bool) (roles : List RoleEnum) (p : Passport) (user : Option Caller)
    → auth_data_guard is_public is_optional p ≡ entered user
    → roles_guard (some roles) user ≡ true
    → (c : Caller) × (user ≡ some c)
      × (p ≡ Passport.present c)
      × (any (role_eq c.role) roles ≡ true)
unfolding auth_data_guard roles_guard
roles_guard_sound true o roles p user e h = absurd (ground arith)
roles_guard_sound false true roles Passport.failed user e h = absurd (ground arith)
roles_guard_sound false true roles Passport.absent user e h = absurd (ground arith)
roles_guard_sound false true roles (Passport.present c) user e h =
    (c, ground arith, refl, ground arith)
roles_guard_sound false false roles Passport.failed user e h = absurd (ground arith)
roles_guard_sound false false roles Passport.absent user e h = absurd (ground arith)
roles_guard_sound false false roles (Passport.present c) user e h =
    (c, ground arith, refl, ground arith)
