-- ===== src/Password/Toy.antt =====
-- A key derivation for the tests: it repeats the length of the password.
use vethealth_backend.Base.{ℕ, zero, suc, ◌%◌, ◌≡◌, refl, ap, List, [], ◌∷◌, Text, length, arith}
use vethealth_backend.Password.RoundTrip.{IsBytes, IsKeyDerivation}

abbrev pub fill : ℕ → ℕ → List ℕ
fill b zero = []
fill b (suc n) = b ∷ fill b n

abbrev pub toy_scrypt : Text → Text → ℕ → List ℕ
toy_scrypt password salt n = fill (length password % 256) n

length-fill : (b n : ℕ) → length (fill b n) ≡ n
length-fill b zero = refl
length-fill b (suc n) = ap suc (length-fill b n)

fill-IsBytes : (b n : ℕ) → IsBytes (fill (b % 256) n)
fill-IsBytes b zero = tt
fill-IsBytes b (suc n) = (omega arith, fill-IsBytes b n)

pub toy_scrypt-IsKeyDerivation : IsKeyDerivation toy_scrypt
toy_scrypt-IsKeyDerivation = record {
  key_size = λ password salt n. length-fill _ n;
  key_bytes = λ password salt n. fill-IsBytes (length password) n;
}
