-- ===== src/Ai/Aborts.antt =====
-- How deep a cancellation is searched for.
use vethealth_backend.Base.{
  ℕ, zero, suc, ◌<◌, ◌≡◌, refl, ◌↔◌, ◌⊎◌, inl, inr, Bool, true, false, none, some, List, [], ◌∷◌,
  any, get_elem?, arith, Option-cases, Bool-cases,
}
use vethealth_backend.Ai.{Ref, Value, Heap, is_abort_name, any_error, is_abort_error}

module _ {A : Type 0} where
  get_of_any :
      (p : A → Bool) (xs : List A)
      → any p xs ≡ true
      → (i : ℕ) × (x : A) × (get_elem? xs i ≡ some x) × (p x ≡ true)
  get_of_any p [] h = absurd (ground arith)
  get_of_any p (x ∷ xs) h = elim (Bool-cases (p x)) [
    | inl e ↦ (0, x, refl, e)
    | inr e ↦ let (i, y, at, f) = get_of_any p xs (ground arith) in (suc i, y, at, f)
  ]

  any_of_get :
      (p : A → Bool) (xs : List A) (i : ℕ) (x : A)
      → get_elem? xs i ≡ some x
      → p x ≡ true
      → any p xs ≡ true
  any_of_get p [] i x e h = absurd (ground arith)
  any_of_get p (y ∷ xs) zero x e h = ground arith
  any_of_get p (y ∷ xs) (suc i) x e h = ground (arith, any_of_get p xs i x e h)

-- From a value to an object in so many steps, each to a cause or to a member of `errors`.
pub data Steps (heap : Heap) : ℕ → Value → Ref → Type 0 where
  stop : (r : Ref) → Steps heap 0 (some r) r
  by_cause : (r q : Ref) (n : ℕ) → Steps heap n (heap r).cause q → Steps heap (suc n) (some r) q
  by_error :
      (r q : Ref) (n i : ℕ) (errors : List Value) (e : Value)
      → (heap r).errors ≡ some errors
      → get_elem? errors i ≡ some e
      → Steps heap n e q
      → Steps heap (suc n) (some r) q

-- A value leads to an object with the name of a cancellation in fewer steps than that.
abbrev pub IsAborted : Heap → ℕ → Value → Type 0
IsAborted heap fuel v =
    (n : ℕ) × (q : Ref) × (n < fuel) × Steps heap n v q × (is_abort_name (heap q).name ≡ true)

module _ (heap : Heap) where
  aborted_here :
      (fuel : ℕ) (r : Ref)
      → is_abort_name (heap r).name ≡ true
      → is_abort_error heap (suc fuel) (some r) ≡ true
  unfolding is_abort_error
  aborted_here fuel r h = ground arith

  aborted_cause :
      (fuel : ℕ) (r : Ref)
      → is_abort_error heap fuel (heap r).cause ≡ true
      → is_abort_error heap (suc fuel) (some r) ≡ true
  unfolding is_abort_error
  aborted_cause fuel r h = ground arith

  aborted_error :
      (fuel : ℕ) (r : Ref) (errors : List Value)
      → (heap r).errors ≡ some errors
      → any (is_abort_error heap fuel) errors ≡ true
      → is_abort_error heap (suc fuel) (some r) ≡ true
  unfolding is_abort_error
  aborted_error fuel r errors e h = ground arith

  find :
      (fuel n : ℕ) (v : Value) (q : Ref)
      → n < fuel
      → Steps heap n v q
      → is_abort_name (heap q).name ≡ true
      → is_abort_error heap fuel v ≡ true
  find zero n v q l steps h = absurd (omega arith)
  find (suc fuel) _ _ q l (stop _) h = aborted_here fuel q h
  find (suc fuel) _ _ q l (by_cause r _ n steps) h =
      aborted_cause fuel r (find fuel n (heap r).cause q (omega arith) steps h)
  find (suc fuel) _ _ q l (by_error r _ n i errors e at get steps) h =
      aborted_error fuel r errors at (
        any_of_get (is_abort_error heap fuel) errors i e get
          (find fuel n e q (omega arith) steps h))

  split_abort :
      (fuel : ℕ) (r : Ref)
      → is_abort_error heap (suc fuel) (some r) ≡ true
      → (is_abort_name (heap r).name ≡ true)
        ⊎ ((any_error (is_abort_error heap fuel) (heap r).errors ≡ true)
            ⊎ (is_abort_error heap fuel (heap r).cause ≡ true))
  unfolding is_abort_error
  split_abort fuel r h = ground arith

  no_fuel : (v : Value) → is_abort_error heap 0 v ≡ false
  unfolding is_abort_error
  no_fuel v = refl

  no_object : (fuel : ℕ) → is_abort_error heap (suc fuel) none ≡ false
  unfolding is_abort_error
  no_object fuel = refl

  found : (fuel : ℕ) (v : Value) → is_abort_error heap fuel v ≡ true → IsAborted heap fuel v
  found zero v h = absurd (ground (arith, no_fuel v))
  found (suc fuel) none h = absurd (ground (arith, no_object fuel))
  found (suc fuel) (some r) h = elim (split_abort fuel r h) [
    | inl e ↦ (0, r, omega arith, stop r, e)
    | inr (inr e) ↦
        let (n, q, l, steps, f) = found fuel (heap r).cause e in
        (suc n, q, omega arith, by_cause r q n steps, f)
    | inr (inl e) ↦ elim (Option-cases (heap r).errors) [
      | inl at ↦ absurd (ground arith)
      | inr (errors, at) ↦
          let (i, v, get, g) = get_of_any (is_abort_error heap fuel) errors (rw at at e) in
          let (n, q, l, steps, f) = found fuel v g in
          (suc n, q, omega arith, by_error r q n i errors v at get steps, f)
    ]
  ]

  -- An error counts as cancelled exactly if fewer steps than the depth allows lead from it to an
  -- object named "TimeoutError" or "AbortError", on any heap, also one whose causes form a cycle.
  pub is_abort_error_iff :
      (fuel : ℕ) (v : Value) → (is_abort_error heap fuel v ≡ true) ↔ IsAborted heap fuel v
  is_abort_error_iff fuel v = (found fuel v, λ (n, q, l, steps, h). find fuel n v q l steps h)
