-- ===== src/Validators/Uniqueness.antt =====
-- What the validator of unique columns keeps (utils/validators/is-not-exist.validator.ts), with the
-- writes of create and update in the services.
use vethealth_backend.Base.{
  ℕ, ◌+◌, ◌≤◌, ◌≡◌, refl, ◌⊎◌, inl, inr, sym, ◌∙◌, Bool, true, false, not, ◌&&◌, Option, none, some,
  List, [], ◌∷◌, ◌++◌, Text, text_eq, first, is_some, if◌then◌else◌, arith, Bool-cases, text_eq_iff,
  subst,
}
use mathlib.Core.Option
use vethealth_backend.Repository.{update_rows}
use vethealth_backend.Validators.{same_id, Lookup, is_not_exist}

-- How many members pass a test.
abbrev pub count {ℓ} : {A : Type ℓ} → (A → Bool) → List A → ℕ
count p [] = 0
count p (x ∷ xs) = if p x then 1 + count p xs else count p xs

module _ {A : Type 0} where
  count-append : (p : A → Bool) (xs ys : List A) → count p (xs ++ ys) ≡ count p xs + count p ys
  count-append p [] ys = omega arith
  count-append p (x ∷ xs) ys = ground (arith, count-append p xs ys)

  count-of_none : (p : A → Bool) (xs : List A) → first p xs ≡ none → count p xs ≡ 0
  count-of_none p [] e = refl
  count-of_none p (x ∷ xs) e = ground (arith, count-of_none p xs)

  count-le : (p q : A → Bool) (xs : List A) → count (λ x. not (q x) && p x) xs ≤ count p xs
  count-le p q [] = omega arith
  count-le p q (x ∷ xs) = ground (arith, count-le p q xs)

  -- Where only one member passes and it is of the key, none passes beside the key.
  count-of_sole :
      (p q : A → Bool) (xs : List A) (x : A)
      → first p xs ≡ some x
      → q x ≡ true
      → count p xs ≤ 1
      → count (λ y. not (q y) && p y) xs ≡ 0
  count-of_sole p q [] x e h c = cc
  count-of_sole p q (y ∷ ys) x e h c = ground (arith, count-of_sole p q ys x, count-le p q ys)

  -- Every row that passes after an update is of the key, or passed before.
  count-update_rows :
      (p q : A → Bool) (f : A → A) (xs : List A)
      → count p (update_rows q f xs) ≤ count q xs + count (λ x. not (q x) && p x) xs
  count-update_rows p q f [] = omega arith
  count-update_rows p q f (x ∷ xs) = ground (arith, count-update_rows p q f xs)

  -- The rows of the key do not pass after it, if no written row does.
  count-update_rows_off :
      (p q : A → Bool) (f : A → A) (xs : List A)
      → ((x : A) → p (f x) ≡ false)
      → count p (update_rows q f xs) ≤ count p xs
  count-update_rows_off p q f [] h = omega arith
  count-update_rows_off p q f (x ∷ xs) h = ground (arith, count-update_rows_off p q f xs h, h x)

-- No two rows have the same value, and no two the same id.
abbrev pub IsUnique : {R : Type 0} → (R → Text) → List R → Type 0
IsUnique value rows = (v : Text) → count (λ r. text_eq (value r) v) rows ≤ 1

-- What a service does with a valid request: `save(create(body))` without an id, or with that of a row.
pub data Write (R : Type 0) : Type 0 where
  create : R → Write R
  update : Text → (R → R) → Write R

abbrev pub own_id : {R : Type 0} → Write R → Option Text
own_id (create new) = none
own_id (update k f) = some k

abbrev pub after : {R : Type 0} → (R → Text) → Write R → List R → List R
after id (create new) rows = rows ++ (new ∷ [])
after id (update k f) rows = update_rows (λ r. text_eq (id r) k) f rows

-- The rows that it writes have a value.
abbrev pub IsWriteOf : {R : Type 0} → (R → Text) → Text → Write R → Type 0
IsWriteOf value v (create new) = value new ≡ v
IsWriteOf {R} value v (update k f) = (r : R) → value (f r) ≡ v

module _ {R S : Type 0} {id value : R → Text} {is_deleted : R → Bool}
    (table : Lookup R S id value is_deleted) where
  abbrev has_value : Text → R → Bool
  has_value v r = text_eq (value r) v

  abbrev has_id : Text → R → Bool
  has_id k r = text_eq (id r) k

  found_cases :
      (current : Option Text) (entity : Option R)
      → (if same_id (Option.map id entity) current then true else not (is_some entity)) ≡ true
      → (entity ≡ none) ⊎ ((r : R) × (entity ≡ some r) × (same_id (some (id r)) current ≡ true))
  found_cases current none h = inl refl
  found_cases current (some r) h = elim (Bool-cases (same_id (some (id r)) current)) [
    | inl own ↦ inr (r, refl, own)
    | inr other ↦ ground arith
  ]

  -- What the answer "free" says: no row has the value, or the first one that has it is the own row.
  is_not_exist_found :
      (current : Option Text) (v : Text) (s : S)
      → is_not_exist table current v s ≡ true
      → (first (has_value v) (table.rows s) ≡ none)
        ⊎ ((r : R) × (first (has_value v) (table.rows s) ≡ some r)
            × (same_id (some (id r)) current ≡ true))
  unfolding is_not_exist
  is_not_exist_found current v s h =
      let e = sym (table.find_one-all v s) in
      elim (found_cases current (table.find_one true v s) h) [
        | inl n ↦ inl (e ∙ n)
        | inr (r, f, own) ↦ inr (r, e ∙ f, own)
      ]

  -- Beside the own row, no row has a value that is free.
  is_not_exist-beside :
      (k v : Text) (s : S)
      → is_not_exist table (some k) v s ≡ true
      → count (has_value v) (table.rows s) ≤ 1
      → count (λ r. not (has_id k r) && has_value v r) (table.rows s) ≡ 0
  is_not_exist-beside k v s h u = elim (is_not_exist_found (some k) v s h) [
    | inl n ↦ omega (
      arith,
      count-of_none (has_value v) (table.rows s) n,
      count-le (has_value v) (has_id k) (table.rows s),
    )
    | inr (r, f, own) ↦ count-of_sole (has_value v) (has_id k) (table.rows s) r f own u
  ]

  created-IsUnique :
      (v : Text) (s : S) (new : R)
      → is_not_exist table none v s ≡ true
      → value new ≡ v
      → IsUnique value (table.rows s)
      → IsUnique value (table.rows s ++ (new ∷ []))
  created-IsUnique v s new h e u x = elim (is_not_exist_found none v s h) [
    | inl n ↦ elim (Bool-cases (has_value x new)) [
      | inl t ↦ ground (
        arith,
        count-append (has_value x) (table.rows s) (new ∷ []),
        t,
        count-of_none (has_value x) (table.rows s) (
            subst (λ y. first (has_value y) (table.rows s) ≡ none)
              (sym e ∙ (text_eq_iff (value new) x).0 t) n),
      )
      | inr t ↦ ground (arith, count-append (has_value x) (table.rows s) (new ∷ []), t, u x)
    ]
    | inr (r, f, own) ↦ cc
  ]

  updated-IsUnique :
      (k v : Text) (s : S) (f : R → R)
      → is_not_exist table (some k) v s ≡ true
      → ((r : R) → value (f r) ≡ v)
      → IsUnique id (table.rows s)
      → IsUnique value (table.rows s)
      → IsUnique value (update_rows (has_id k) f (table.rows s))
  updated-IsUnique k v s f h e i u x = elim (Bool-cases (text_eq v x)) [
    | inl t ↦ omega (
      arith,
      count-update_rows (has_value x) (has_id k) f (table.rows s),
      i k,
      subst (λ y. count (λ r. not (has_id k r) && has_value y r) (table.rows s) ≡ 0)
          ((text_eq_iff v x).0 t) (is_not_exist-beside k v s h (u v)),
    )
    | inr t ↦ omega (
      arith,
      count-update_rows_off (has_value x) (has_id k) f (table.rows s) (λ r. rw (e r) t),
      u x,
    )
  ]

  -- A column stays unique when a service writes a value that the validator found free for the id in
  -- the request: a new row for a request without one, or the row of that id. Where ids are unique.
  pub is_not_exist-IsUnique :
      (write : Write R) (v : Text) (s : S)
      → is_not_exist table (own_id write) v s ≡ true
      → IsWriteOf value v write
      → IsUnique id (table.rows s)
      → IsUnique value (table.rows s)
      → IsUnique value (after id write (table.rows s))
  is_not_exist-IsUnique (create new) v s h e i u = created-IsUnique v s new h e u
  is_not_exist-IsUnique (update k f) v s h e i u = updated-IsUnique k v s f h e i u
