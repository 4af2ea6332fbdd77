-- ===== src/Base/Paging.antt =====
-- Pages of a list.
use Prim.Native.Nat.{ℕ, zero, suc, ◌+◌, ◌-◌, ◌*◌, ◌/◌, ◌≤◌, ◌<◌}
use mathlib.Core.Path.{◌≡◌, refl, sym, ap, ◌∙◌}
use mathlib.Core.List.{List, [], ◌∷◌, ◌++◌}
use native.Mathlib.Omega.{arith}
use native.Mathlib.Nat.{lt-div-mul-add}
use vethealth_backend.Base.Lists.{length, take, drop}

-- `Math.ceil(n / size)` for a size that is not 0
abbrev pub ceil_div : ℕ → ℕ → ℕ
ceil_div n size = (n + (size - 1)) / size

pub ceil_div-covers : (n size : ℕ) → 0 < size → n ≤ ceil_div n size * size
ceil_div-covers n size h = omega (arith, lt-div-mul-add {a = n + (size - 1)} {b = size} h)

module _ {ℓ} {A : Type ℓ} where
  pub take-drop :
      (n m k : ℕ) (xs : List A) → k ≡ n + m → take n xs ++ take m (drop n xs) ≡ take k xs
  take-drop zero m k xs e = ap (λ i. take i xs) (omega arith)
  take-drop (suc n) m zero xs e = absurd (omega arith)
  take-drop (suc n) zero (suc k) [] e = refl
  take-drop (suc n) (suc m) (suc k) [] e = refl
  take-drop (suc n) m (suc k) (x ∷ xs) e = ap (λ ys. x ∷ ys) (take-drop n m k xs (omega arith))

  pub take_all : (k : ℕ) (xs : List A) → length xs ≤ k → take k xs ≡ xs
  take_all zero [] h = refl
  take_all zero (x ∷ xs) h = absurd (omega arith)
  take_all (suc k) [] h = refl
  take_all (suc k) (x ∷ xs) h = ap (λ ys. x ∷ ys) (take_all k xs (omega arith))

  -- So many items, behind those that are passed over.
  abbrev pub page_items : (skip size : ℕ) → List A → List A
  page_items skip size xs = take size (drop skip xs)

  -- The first pages of a size, so many of them.
  abbrev pub first_pages : (size : ℕ) → List A → ℕ → List A
  first_pages size xs zero = []
  first_pages size xs (suc n) = first_pages size xs n ++ page_items ((suc n - 1) * size) size xs

  first_pages-take : (size : ℕ) (xs : List A) (n : ℕ) → first_pages size xs n ≡ take (n * size) xs
  first_pages-take size xs zero =
      let none_yet : 0 * size ≡ 0 = omega arith in sym (ap (λ i. take i xs) none_yet)
  first_pages-take size xs (suc n) =
      let one : suc n - 1 ≡ n = omega arith in
      let next : suc n * size ≡ n * size + size = omega arith in
      ap (λ ys. ys ++ page_items ((suc n - 1) * size) size xs) (first_pages-take size xs n)
      ∙ ap (λ i. take (n * size) xs ++ take size (drop (i * size) xs)) one
      ∙ take-drop (n * size) size (suc n * size) xs next

  -- As many first pages as a list has are the whole list.
  pub first_pages_all :
      (size : ℕ) (xs : List A) → 0 < size → first_pages size xs (ceil_div (length xs) size) ≡ xs
  first_pages_all size xs l =
      let total = ceil_div (length xs) size in
      first_pages-take size xs total
      ∙ take_all (total * size) xs (ceil_div-covers (length xs) size l)
