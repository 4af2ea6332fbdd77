-- ===== src/Access/Tests/Routes.antt =====
-- Requests at the doors.
use vethealth_backend.Base.{◌≡◌, refl, true, false, codes}
use vethealth_backend.Users.{admin, writer, is_admin}
use vethealth_backend.Access.{Caller, absent, present, auth_data_guard, roles_guard}
use vethealth_backend.Access.Routes.{
  pages, posts, auth, update, login, get_many, create, route_of, opens,
}
use vethealth_backend.Access.Routes.Doors.{writes, is_entrance, is_administration, opens-route_of}

doors : Unit {0}
unfolding opens auth_data_guard roles_guard
doors = tt

abbrev boss : Caller
boss = record { id = codes "1"; role = admin }

boss_enters : opens (route_of (pages update)) (present boss) ≡ true
unfolding doors
boss_enters = refl

opens-route_of_example :
    (writes (route_of (pages update)).method ≡ true
      → is_entrance (pages update) ≡ false
      → (c : Caller) × (present boss ≡ present c))
    × (is_administration (pages update) ≡ true
        → (c : Caller) × (present boss ≡ present c) × (is_admin c.role ≡ true))
opens-route_of_example = opens-route_of (pages update) (present boss) boss_enters

door_tests :
    (opens (route_of (pages update)) (present (record boss { role = writer })) ≡ false)
    × (opens (route_of (posts create)) absent ≡ false)
    × (opens (route_of (posts get_many)) absent ≡ true)
    × (opens (route_of (auth login)) absent ≡ true)
unfolding doors
door_tests = (refl, refl, refl, refl)
