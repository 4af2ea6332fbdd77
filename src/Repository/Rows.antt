-- ===== src/Repository/Rows.antt =====
-- How the updates and deletions of an interface show in its searches.
use vethealth_backend.Base.{
  All, Bool-cases, inl, inr, false, none, ◌≡◌, refl, Bool, true, some, List, [], ◌∷◌, ◌++◌, arith,
  filter, first, any, if◌then◌else◌,
}
use mathlib.Core.Option
use vethealth_backend.Repository.{update_rows}

module _ {R : Type 0} where
  abbrev pub rewrite : (R → Bool) → (R → R) → R → R
  rewrite has f r = if has r then f r else r

  -- A search whose test the update does not change finds the updated row.
  pub first-update_rows :
      (p has : R → Bool) (f : R → R) (rows : List R)
      → ((r : R) → p (f r) ≡ p r)
      → first p (update_rows has f rows) ≡ Option.map (rewrite has f) (first p rows)
  first-update_rows p has f [] h = refl
  first-update_rows p has f (r ∷ rows) h = ground (arith, first-update_rows p has f rows h, h r)

  pub first-append :
      (p : R → Bool) (rows more : List R) (r : R)
      → first p rows ≡ some r
      → first p (rows ++ more) ≡ some r
  first-append p [] more r e = cc
  first-append p (x ∷ rows) more r e = ground (arith, first-append p rows more r)

  pub any_of_first :
      (p q : R → Bool) (rows : List R) (r : R)
      → first p rows ≡ some r
      → q r ≡ true
      → any q rows ≡ true
  any_of_first p q [] r e h = cc
  any_of_first p q (x ∷ rows) r e h = ground (arith, any_of_first p q rows r)

  -- A filter that rejects the rows of a key before and after the update does not see it.
  pub filter-update_rows :
      (p has : R → Bool) (f : R → R) (rows : List R)
      → ((r : R) → has r ≡ true → p r ≡ false)
      → ((r : R) → p (f r) ≡ p r)
      → filter p (update_rows has f rows) ≡ filter p rows
  filter-update_rows p has f [] h k = refl
  filter-update_rows p has f (r ∷ rows) h k =
      ground (arith, filter-update_rows p has f rows h k, h r, k r)

  -- A new row is found where no row was.
  pub first-append_none :
      (p : R → Bool) (rows : List R) (r : R)
      → first p rows ≡ none
      → p r ≡ true
      → first p (rows ++ (r ∷ [])) ≡ some r
  first-append_none p [] r e h = rw h
  first-append_none p (x ∷ rows) r e h = ground (arith, first-append_none p rows r)

  pub All-update_rows :
      (P : R → Type 0) (has : R → Bool) (f : R → R) (rows : List R)
      → ((r : R) → P r → P (f r))
      → All P rows
      → All P (update_rows has f rows)
  All-update_rows P has f [] k h = tt
  All-update_rows P has f (r ∷ rows) k h = elim (Bool-cases (has r)) [
    | inl e ↦ rw e (k r h.0, All-update_rows P has f rows k h.1)
    | inr e ↦ rw e (h.0, All-update_rows P has f rows k h.1)
  ]

  -- An update that the test does not see.
  pub any-update_rows :
      (p has : R → Bool) (f : R → R) (rows : List R)
      → ((r : R) → p (f r) ≡ p r)
      → any p (update_rows has f rows) ≡ any p rows
  any-update_rows p has f [] h = refl
  any-update_rows p has f (r ∷ rows) h = ground (arith, any-update_rows p has f rows h, h r)

  pub any-append :
      (p : R → Bool) (rows more : List R) → any p rows ≡ true → any p (rows ++ more) ≡ true
  any-append p [] more e = cc
  any-append p (r ∷ rows) more e = ground (arith, any-append p rows more)

  pub any-append_last :
      (p : R → Bool) (rows : List R) (r : R) → p r ≡ true → any p (rows ++ (r ∷ [])) ≡ true
  any-append_last p [] r e = rw e
  any-append_last p (x ∷ rows) r e = ground (arith, any-append_last p rows r e)

  -- Where a row passes one test, a search by a weaker test finds one.
  pub first_of_any :
      (p q : R → Bool) (rows : List R)
      → ((r : R) → p r ≡ true → q r ≡ true)
      → any p rows ≡ true
      → (r : R) × (first q rows ≡ some r)
  first_of_any p q [] h e = cc
  first_of_any p q (r ∷ rows) h e = elim (Bool-cases (q r)) [
    | inl t ↦ (r, rw t refl)
    | inr f ↦ let (s, found) = first_of_any p q rows h (ground (arith, h r)) in (s, rw f found)
  ]
