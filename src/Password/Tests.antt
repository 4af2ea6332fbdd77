-- ===== src/Password/Tests.antt =====
-- Concrete hashes.
use vethealth_backend.Base.{◌≡◌, refl, true, false, none, some, Text, codes, text_eq, arith}
use vethealth_backend.Password.{key_length, hash_password, compare_password}
use vethealth_backend.Password.Toy.{toy_scrypt, toy_scrypt-IsKeyDerivation}
use vethealth_backend.Password.RoundTrip.{compare_password-hash_password}

stored : Text
unfolding hash_password codes
stored = hash_password toy_scrypt (codes "ab12") (codes "secret")

compare_tests :
    (compare_password toy_scrypt (codes "secret") stored ≡ some true)
    × (compare_password toy_scrypt (codes "other") stored ≡ some false)
    × (compare_password toy_scrypt (codes "secret") (codes "no dot") ≡ none)
    × (compare_password toy_scrypt (codes "secret") (codes "ab.12") ≡ none)
unfolding compare_password stored codes
compare_tests = (refl, refl, refl, refl)

compare_password-hash_password_example :
    compare_password toy_scrypt
      (codes "other")
      (hash_password toy_scrypt (codes "ab12") (codes "secret"))
    ≡ some (
        text_eq
          (toy_scrypt (codes "secret") (codes "ab12") key_length)
          (toy_scrypt (codes "other") (codes "ab12") key_length))
unfolding codes
compare_password-hash_password_example =
    compare_password-hash_password toy_scrypt toy_scrypt-IsKeyDerivation (codes "ab12")
      (codes "secret") (codes "other") (omega arith)
