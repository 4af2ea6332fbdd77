-- ===== src/Password/RoundTrip.antt =====
-- Reading a stored hash back.
use vethealth_backend.Base.{
  ℕ, ◌/◌, ◌%◌, ◌<◌, ◌≡◌, refl, ap, ◌≢◌, some, none, List, [], ◌∷◌, Text, text_eq, length, All,
  Lacks, split-Lacks, split-append, arith,
}
use vethealth_backend.Password.{
  key_length, dummy_password_hash, hex_digit, to_hex, hex_value, from_hex, hash_password,
  compare_parts, compare_password,
}

abbrev pub IsBytes : List ℕ → Type 0
IsBytes = All (λ b. b < 256)

-- What node:crypto documents of `scrypt`: a key of as many bytes as were asked for.
pub record IsKeyDerivation (scrypt : Text → Text → ℕ → List ℕ) : Type 0 where
  pub key_size : (password salt : Text) (n : ℕ) → length (scrypt password salt n) ≡ n
  pub key_bytes : (password salt : Text) (n : ℕ) → IsBytes (scrypt password salt n)

hex_value-hex_digit : (n : ℕ) → n < 16 → hex_value (hex_digit n) ≡ some n
unfolding hex_value hex_digit
hex_value-hex_digit n h = ground arith

hex_digit-ne-dot : (n : ℕ) → n < 16 → hex_digit n ≢ b'.'
unfolding hex_digit
hex_digit-ne-dot n h = ground arith

to_hex-Lacks : (bytes : List ℕ) → IsBytes bytes → Lacks b'.' (to_hex bytes)
unfolding to_hex
to_hex-Lacks [] h = tt
to_hex-Lacks (b ∷ bytes) (lt, h) = (
  hex_digit-ne-dot (b / 16) (omega arith),
  (hex_digit-ne-dot (b % 16) (omega arith), to_hex-Lacks bytes h),
)

from_hex-to_hex : (bytes : List ℕ) → IsBytes bytes → from_hex (to_hex bytes) ≡ bytes
unfolding to_hex from_hex
from_hex-to_hex [] h = refl
from_hex-to_hex (b ∷ bytes) (lt, h) =
    rw
      (
        hex_value-hex_digit (b / 16) (omega arith),
        hex_value-hex_digit (b % 16) (omega arith),
        from_hex-to_hex bytes h,
      )
      (ap (λ a. a ∷ bytes) (omega arith))

module _ (scrypt : Text → Text → ℕ → List ℕ) (sound : IsKeyDerivation scrypt) where
  -- A hash made from a password is compared with another password by the two derived keys alone,
  -- and the comparison raises nothing. The salt is any text with no dot.
  pub compare_password-hash_password :
      (salt password attempt : Text)
      → Lacks b'.' salt
      → compare_password scrypt attempt (hash_password scrypt salt password)
        ≡ some (text_eq (scrypt password salt key_length) (scrypt attempt salt key_length))
  unfolding compare_password hash_password
  compare_password-hash_password salt password attempt dotless =
      let key = scrypt password salt key_length in
      let bytes = sound.key_bytes password salt key_length in
      rw (
        split-append b'.' salt (to_hex key) dotless,
        split-Lacks b'.' (to_hex key) (to_hex-Lacks key bytes),
        compare_parts,
        from_hex-to_hex key bytes,
        sound.key_size password salt key_length,
        sound.key_size attempt salt key_length,
      )

  -- Against the dummy hash, which stands in for the hash of an unknown user, no password makes
  -- the comparison raise.
  pub compare_password-dummy :
      (attempt : Text) → compare_password scrypt attempt dummy_password_hash ≢ none
  unfolding compare_password dummy_password_hash
  compare_password-dummy attempt = rw (sound.key_size attempt _ key_length) (cc)
