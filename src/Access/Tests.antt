-- ===== src/Access/Tests.antt =====
-- Users in memory, and requests of theirs.
mod Routes
mod Serialization
use vethealth_backend.Base.{
  ℕ, ◌≡◌, refl, ◌↔◌, true, false, none, some, List, [], ◌∷◌, codes, text_eq, any, filter, arith,
}
use vethealth_backend.Repository.{Repository}
use vethealth_backend.Repository.Memory.{memory}
use vethealth_backend.Users
use vethealth_backend.Users.{
  User, UserWhere, fits_user, super_admin, admin, writer, active, is_super_admin, by_id,
}
use vethealth_backend.Access.{
  Caller, allow, forbidden, not_found, Passport, num, str, UpdateBody, CreateBody, auth_data_guard,
  roles_guard, role_eq, update_user_guard, delete_user_guard, delete_user, create_post_guard,
  is_not_super_admin, get_topics_guard,
}
use vethealth_backend.Access.Changes.{
  IsAllowed, update_user_guard-eq-allow_iff, delete_user_keeps, roles_guard_sound,
}
use vethealth_backend.Access.Creation.{create_post_guard_topics}

tests : Unit {0}
unfolding auth_data_guard roles_guard update_user_guard delete_user_guard delete_user
    create_post_guard is_not_super_admin get_topics_guard text_eq codes Users.soft_delete
tests = tt

abbrev table : Repository User UserWhere (List User) fits_user Users.has_id
table = memory fits_user Users.has_id

abbrev root : User
root = record {
  id = 1 ∷ [];
  email = 41 ∷ [];
  firstname = [];
  lastname = none;
  password = none;
  role = super_admin;
  status = active;
  topics = [];
}

abbrev ann : User
ann = record root { id = 2 ∷ []; email = 42 ∷ []; role = writer }

abbrev rows : List User
rows = root ∷ ann ∷ []

abbrev boss : Caller
boss = record { id = 3 ∷ []; role = admin }

abbrev self : Caller
self = record { id = 2 ∷ []; role = writer }

abbrev rename : UpdateBody
rename = record { id = some (2 ∷ []); role = none; has_status = false }

guard_tests :
    (update_user_guard table (some self) rename rows ≡ allow)
    × (update_user_guard table (some self) (record rename { has_status = true }) rows ≡ forbidden)
    × (update_user_guard table
          (some boss)
          (record rename { role = some (some (str (codes "1"))) })
          rows
        ≡ forbidden)
    × (update_user_guard table
          (some boss)
          (record { id = some (1 ∷ []); role = none; has_status = true })
          rows
        ≡ forbidden)
    × (update_user_guard table (some boss) (record rename { id = some (9 ∷ []) }) rows ≡ not_found)
    × (delete_user table (1 ∷ []) rows ≡ (forbidden, rows))
    × (delete_user table (2 ∷ []) rows ≡ (allow, root ∷ []))
    × (is_not_super_admin (some (num 1)) ≡ false)
    × (is_not_super_admin (some (str (codes "2"))) ≡ true)
    × (get_topics_guard (some (codes "inactive")) (some self) ≡ forbidden)
unfolding tests
guard_tests = (refl, refl, refl, refl, refl, refl, refl, refl, refl, refl)

update_user_guard-eq-allow_iff_example :
    (update_user_guard table (some self) rename rows ≡ allow) ↔ (
      (target : User) × (table.find_one (record { id = some (2 ∷ []); email = none }) rows
        ≡ some target)
      × IsAllowed table (some self) rename target)
update_user_guard-eq-allow_iff_example =
    update_user_guard-eq-allow_iff table (some self) rename rows

delete_user_keeps_example :
    filter (λ r. is_super_admin r.role) (table.rows (delete_user table (2 ∷ []) rows).1) ≡ root ∷ []
unfolding tests
delete_user_keeps_example =
    delete_user_keeps table (2 ∷ []) rows (λ u e. (λ h. ground arith, (λ h. ground arith, tt)))

abbrev draft_of : List ℕ → CreateBody
draft_of given = record { status = none; topics = some given }
