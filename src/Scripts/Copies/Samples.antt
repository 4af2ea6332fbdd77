-- ===== src/Scripts/Copies/Samples.antt =====
-- The sample of the files that are fetched.
use vethealth_backend.Base.{
  ℕ, zero, suc, ◌+◌, ◌-◌, ◌≡◌, ◌≢◌, ◌∙◌, refl, sym, ap, subst, Option, none, some, List, [], ◌∷◌,
  ◌++◌, length, take, drop, get_elem?, leb, min, length-take, arith, Option-cases, Bool-cases, inl,
  inr,
}
use mathlib.Core.List.{Perm, append-nil}
use mathlib.Core.List.Perm
use vethealth_backend.Scripts.Copies.{replace_at, swap, shuffle, sample_array}

module _ {ℓ} {A : Type ℓ} where
  none-ne_some : {a : A} → none ≢ some a
  none-ne_some e = cc

  or_default : A → Option A → A
  or_default d none = d
  or_default d (some a) = a

  some-eq : (a b : A) → some a ≡ some b → a ≡ b
  unfolding or_default
  some-eq a b e = ap (or_default a) e

  get_elem?-replace_at :
      (i j : ℕ) (x y : A) (xs : List A)
      → get_elem? xs i ≡ some x
      → get_elem? xs j ≡ some y
      → get_elem? (replace_at i y xs) j ≡ some y
  get_elem?-replace_at i j x y [] hi hj = cc
  get_elem?-replace_at zero zero x y (z ∷ xs) hi hj = refl
  get_elem?-replace_at zero (suc j) x y (z ∷ xs) hi hj = hj
  get_elem?-replace_at (suc i) zero x y (z ∷ xs) hi hj = hj
  get_elem?-replace_at (suc i) (suc j) x y (z ∷ xs) hi hj = get_elem?-replace_at i j x y xs hi hj

  -- A write trades the old member for the new one.
  replace_at-perm :
      (i : ℕ) (x v : A) (xs : List A)
      → get_elem? xs i ≡ some x
      → Perm (x ∷ replace_at i v xs) (v ∷ xs)
  replace_at-perm i x v [] h = absurd (none-ne_some h)
  replace_at-perm zero x v (z ∷ xs) h =
      subst (λ u. Perm (x ∷ v ∷ xs) (v ∷ u ∷ xs)) (sym (some-eq z x h)) (Perm.swap v x xs)
  replace_at-perm (suc i) x v (z ∷ xs) h =
      Perm.trans (Perm.swap z x _)
        (Perm.trans (Perm.cons z (replace_at-perm i x v xs h)) (Perm.swap v z xs))

  exchange-perm :
      (i j : ℕ) (x y : A) (xs : List A)
      → get_elem? xs i ≡ some x
      → get_elem? xs j ≡ some y
      → Perm (replace_at j x (replace_at i y xs)) xs
  exchange-perm i j x y xs hi hj =
      let second =
        replace_at-perm j y x (replace_at i y xs) (get_elem?-replace_at i j x y xs hi hj) in
      Perm.cons_inv (Perm.trans second (replace_at-perm i x y xs hi))

  swap-perm : (i j : ℕ) (xs : List A) → Perm (swap i j xs) xs
  swap-perm i j xs = elim (Option-cases (get_elem? xs i)) [
    | inl e ↦ rw e (Perm.refl xs)
    | inr (x, e) ↦ elim (Option-cases (get_elem? xs j)) [
      | inl f ↦ rw (e, f) (Perm.refl xs)
      | inr (y, f) ↦ rw (e, f) (exchange-perm i j x y xs e f)
    ]
  ]

  shuffle-perm : (random_int : ℕ → ℕ) (i : ℕ) (xs : List A) → Perm (shuffle random_int i xs) xs
  shuffle-perm random_int zero xs = Perm.refl xs
  shuffle-perm random_int (suc i) xs =
      Perm.trans (shuffle-perm random_int i (swap (suc i) (random_int (suc i + 1)) xs))
        (swap-perm (suc i) (random_int (suc i + 1)) xs)

  take-append-drop : (n : ℕ) (xs : List A) → take n xs ++ drop n xs ≡ xs
  take-append-drop zero xs = refl
  take-append-drop (suc n) [] = refl
  take-append-drop (suc n) (x ∷ xs) = ap (λ ys. x ∷ ys) (take-append-drop n xs)

  perm_of_eq : (xs ys : List A) → xs ≡ ys → Perm xs ys
  perm_of_eq xs ys e = subst (Perm xs) e (Perm.refl xs)

  length-replace_at : (i : ℕ) (v : A) (xs : List A) → length (replace_at i v xs) ≡ length xs
  length-replace_at i v [] = refl
  length-replace_at zero v (x ∷ xs) = refl
  length-replace_at (suc i) v (x ∷ xs) = ap suc (length-replace_at i v xs)

  length-swap : (i j : ℕ) (xs : List A) → length (swap i j xs) ≡ length xs
  length-swap i j xs = elim (Option-cases (get_elem? xs i)) [
    | inl e ↦ rw e refl
    | inr (x, e) ↦ elim (Option-cases (get_elem? xs j)) [
      | inl f ↦ rw (e, f) refl
      | inr (y, f) ↦
          rw (e, f) (length-replace_at j x (replace_at i y xs) ∙ length-replace_at i y xs)
    ]
  ]

  length-shuffle :
      (random_int : ℕ → ℕ) (i : ℕ) (xs : List A) → length (shuffle random_int i xs) ≡ length xs
  length-shuffle random_int zero xs = refl
  length-shuffle random_int (suc i) xs =
      length-shuffle random_int i (swap (suc i) (random_int (suc i + 1)) xs)
      ∙ length-swap (suc i) (random_int (suc i + 1)) xs

  -- Whatever the random numbers are, the sample and some rest are together the items, each as often,
  -- and the sample has as many items as asked for, or all where there are fewer.
  pub sample_array-perm :
      (random_int : ℕ → ℕ) (items : List A) (count : ℕ)
      → ((rest : List A) × Perm (sample_array random_int items count ++ rest) items)
        × (length (sample_array random_int items count) ≡ min count (length items))
  unfolding sample_array
  sample_array-perm random_int items count = elim (Bool-cases (leb (length items) count)) [
    | inl e ↦ rw e (([], perm_of_eq (items ++ []) items (append-nil items)), ground arith)
    | inr e ↦
        let shuffled = shuffle random_int (length items - 1) items in
        let perm = shuffle-perm random_int (length items - 1) items in
        rw e (
          (
            drop count shuffled,
            Perm.trans (perm_of_eq _ shuffled (take-append-drop count shuffled)) perm,
          ),
          length-take count shuffled
              ∙ ap (min count) (length-shuffle random_int (length items - 1) items),
        )
  ]
