-- ===== src/Password.antt =====
-- utils/password-hash.ts: salted password hashes. The key derivation `scrypt` of node:crypto is a
-- parameter; bytes are numbers below 256.
pub mod RoundTrip
pub mod Toy
mod Tests
use vethealth_backend.Base.{
  ℕ, ◌+◌, ◌-◌, ◌*◌, ◌/◌, ◌%◌, Bool, ◌&&◌, Option, none, some, List, [], ◌∷◌, ◌++◌, Text, codes,
  split, text_eq, length, leb, ◌==◌, if◌then◌else◌,
}

abbrev pub key_length : ℕ
key_length = 32

-- `DUMMY_PASSWORD_HASH`
unfoldable pub dummy_password_hash : Text
unfolding codes
dummy_password_hash =
    codes
      "6647e67b1fac0cc0f1d3ff5481c9e0e0.d297166ebb2070ca44ab100278a91fbba173771e90047cf49879cee178729750"

-- `buffer.toString('hex')`
hex_digit : ℕ → ℕ
hex_digit n = if leb n 9 then b'0' + n else b'a' + n - 10

to_hex : List ℕ → Text
unfolding hex_digit
to_hex [] = []
to_hex (b ∷ bytes) = hex_digit (b / 16) ∷ hex_digit (b % 16) ∷ to_hex bytes

hex_value : ℕ → Option ℕ
hex_value c =
    if leb b'0' c && leb c b'9'
    then some (c - b'0')
    else if leb b'a' c && leb c b'f'
    then some (c - b'a' + 10)
    else if leb b'A' c && leb c b'F'
    then some (c - b'A' + 10)
    else none

abbrev hex_byte : Option ℕ → Option ℕ → List ℕ → List ℕ
hex_byte (some hi) (some lo) rest = (hi * 16 + lo) ∷ rest
hex_byte (some hi) none rest = []
hex_byte none lo rest = []

-- `Buffer.from(s, 'hex')`: it ends at the first pair that is not two hexadecimal digits.
from_hex : Text → List ℕ
unfolding hex_value
from_hex [] = []
from_hex (c ∷ []) = []
from_hex (c ∷ d ∷ s) = hex_byte (hex_value c) (hex_value d) (from_hex s)

module _ (scrypt : Text → Text → ℕ → List ℕ) where
  -- `hashPassword`, with the random salt as an argument
  unfoldable pub hash_password : Text → Text → Text
  unfolding to_hex
  hash_password salt password = salt ++ (b'.' ∷ to_hex (scrypt password salt key_length))

  -- `const [salt, hashKey] = hash.split('.')`, then the comparison. `none` is an exception that the
  -- program does not handle: there is no second part, or `timingSafeEqual` is given buffers of
  -- different lengths, which it refuses inside the callback of `scrypt`, so outside the promise.
  compare_parts : Text → List Text → Option Bool
  unfolding from_hex
  compare_parts password [] = none
  compare_parts password (salt ∷ []) = none
  compare_parts password (salt ∷ hash_key ∷ _) =
      let stored = from_hex hash_key in
      let key = scrypt password salt key_length in
      if length stored == length key then some (text_eq stored key) else none

  -- `comparePassword`
  unfoldable pub compare_password : Text → Text → Option Bool
  unfolding compare_parts split text_eq
  compare_password password hash = compare_parts password (split b'.' hash)
