-- ===== src/Access/Tests/Serialization.antt =====
-- An answer with one user, for a reader.
use vethealth_backend.Base.{◌≡◌, refl, Bool, true, false, some, none, List, any, codes, text_eq}
use vethealth_backend.Users.{admin, writer}
use vethealth_backend.Access.{Caller}
use vethealth_backend.Access.Routes.{users, get_user, auth, current_user, search}
use vethealth_backend.Access.Serialization.{
  Group, group_eq, Exposure, plain, excluded, exposed, Serializer, user_entity, other, email,
  password, created_at, groups_of, is_shown,
}

abbrev shows : List Group → Exposure → Bool
shows groups plain = true
shows groups excluded = false
shows groups (exposed wanted) = any (λ g. any (group_eq g) groups) wanted

abbrev serializer : Serializer
serializer = record {
  shows = shows;
  shows-plain = λ groups. refl;
  shows-excluded = λ groups. refl;
  shows-exposed = λ groups wanted. refl;
}

abbrev ann : Caller
ann = record { id = codes "2"; role = writer }

shown_tests :
    (is_shown serializer (users get_user) (some ann) (user_entity (codes "2")) email ≡ true)
    × (is_shown serializer (users get_user) (some ann) (user_entity (codes "3")) email ≡ false)
    × (is_shown serializer (users get_user) (some ann) other email ≡ false)
    × (is_shown serializer (users get_user) (some (record ann { role = admin })) other email ≡ true)
    × (is_shown serializer (users get_user) (some (record ann { role = admin })) other password
        ≡ false)
    × (is_shown serializer (auth current_user) (some ann) (user_entity (codes "2")) email ≡ false)
    × (is_shown serializer search none other created_at ≡ false)
unfolding groups_of text_eq codes
shown_tests = (refl, refl, refl, refl, refl, refl, refl)
