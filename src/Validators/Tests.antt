-- ===== src/Validators/Tests.antt =====
-- Users in memory, and values that are tested against them.
use vethealth_backend.Base.{
  ◌≡◌, refl, Bool, true, false, none, some, List, [], ◌∷◌, Text, codes, text_eq, first, split,
  if◌then◌else◌, arith,
}
use vethealth_backend.Validators.{
  Lookup, is_not_exist, is_exist, undefined, string, object, include_transform, is_valid_includes,
}
use vethealth_backend.Validators.Uniqueness.{IsUnique, update, after, is_not_exist-IsUnique}

tests : Unit {0}
unfolding is_not_exist is_exist include_transform is_valid_includes text_eq codes split
tests = tt

record Account : Type 0 where
  id : Text
  email : Text
  gone : Bool

abbrev table : Lookup Account (List Account) (λ r. r.id) (λ r. r.email) (λ r. r.gone)
table = record {
  rows = λ s. s;
  find_one = λ with_deleted v s.
      if with_deleted
      then first (λ r. text_eq r.email v) s
      else first (λ r. if r.gone then false else text_eq r.email v) s;
  find_one-all = λ v s. refl;
  find_one-live = λ v s. refl;
}

abbrev ann : Account
ann = record { id = 1 ∷ []; email = 41 ∷ []; gone = false }

abbrev rows : List Account
rows = ann ∷ (record { id = 2 ∷ []; email = 42 ∷ []; gone = true }) ∷ []

validator_tests :
    (is_not_exist table none (41 ∷ []) rows ≡ false)
    × (is_not_exist table (some (1 ∷ [])) (41 ∷ []) rows ≡ true)
    × (is_not_exist table (some (1 ∷ [])) (42 ∷ []) rows ≡ false)
    × (is_not_exist table none (43 ∷ []) rows ≡ true)
    × (is_exist table (some (41 ∷ [])) rows ≡ true)
    × (is_exist table (some (42 ∷ [])) rows ≡ false)
    × (is_exist table none rows ≡ false)
    × (include_transform (string []) ≡ some (object ([] ∷ [])))
    × (is_valid_includes (codes "page" ∷ []) (object ([] ∷ [])) ≡ false)
    × (include_transform undefined ≡ none)
    × (is_valid_includes (codes "page" ∷ codes "users" ∷ []) (string (codes "users,page")) ≡ true)
unfolding tests
validator_tests = (refl, refl, refl, refl, refl, refl, refl, refl, refl, refl, refl)

ids-IsUnique : IsUnique (λ r. r.id) rows
unfolding tests
ids-IsUnique [] = ground arith
ids-IsUnique (c ∷ v) = ground arith

emails-IsUnique : IsUnique (λ r. r.email) rows
unfolding tests
emails-IsUnique [] = ground arith
emails-IsUnique (c ∷ v) = ground arith

abbrev moved : Account → Account
moved r = record r { email = 43 ∷ [] }

is_free : is_not_exist table (some (1 ∷ [])) (43 ∷ []) rows ≡ true
unfolding tests
is_free = refl

is_not_exist-IsUnique_example :
    IsUnique (λ r. r.email) (after (λ r. r.id) (update (1 ∷ []) moved) rows)
is_not_exist-IsUnique_example =
    is_not_exist-IsUnique table (update (1 ∷ []) moved) (43 ∷ []) rows is_free (λ r. refl)
      ids-IsUnique emails-IsUnique
