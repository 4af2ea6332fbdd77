-- ===== src/Scripts/Migration/Updates.antt =====
-- What a list of updates makes of the rows.
use vethealth_backend.Base.{
  ◌≡◌, ◌≢◌, ◌∙◌, refl, sym, ap, Bool, List, [], ◌∷◌, map, filter, Text, text_eq, text_eq_iff,
  text_eq_refl, All, ◌==◌, ==_iff, if◌then◌else◌, Bool-cases, inl, inr,
}
use vethealth_backend.Scripts.Migration.{
  Row, Change, change_of, changes_of, update_row, apply_changes,
}

-- Primary keys are unique.
abbrev pub UniqueIds : List Row → Type 0
UniqueIds [] = Unit
UniqueIds (r ∷ rows) = All (λ s. s.id ≢ r.id) rows × UniqueIds rows

-- One row after all updates
abbrev updated : List Change → Row → Row
updated [] r = r
updated (c ∷ changes) r = updated changes (update_row c r)

map-map : {A : Type 0} (f g : A → A) (xs : List A) → map f (map g xs) ≡ map (λ x. f (g x)) xs
map-map f g [] = refl
map-map f g (x ∷ xs) = ap (λ ys. f (g x) ∷ ys) (map-map f g xs)

map_self : {A : Type 0} (xs : List A) → map (λ x. x) xs ≡ xs
map_self [] = refl
map_self (x ∷ xs) = ap (λ ys. x ∷ ys) (map_self xs)

map-All : {A : Type 0} (f g : A → A) (xs : List A) → All (λ x. f x ≡ g x) xs → map f xs ≡ map g xs
map-All f g [] h = refl
map-All f g (x ∷ xs) h = rw (h.0, map-All f g xs h.1) refl

apply_changes-map :
    (changes : List Change) (rows : List Row)
    → apply_changes changes rows ≡ map (updated changes) rows
apply_changes-map [] rows = sym (map_self rows)
apply_changes-map (c ∷ changes) rows =
    apply_changes-map changes (map (update_row c) rows)
    ∙ map-map (updated changes) (update_row c) rows

update_row_other : (c : Change) (r : Row) → c.id ≢ r.id → update_row c r ≡ r
update_row_other c r n = elim (Bool-cases (r.id == c.id)) [
  | inl g ↦ absurd (n (sym ((==_iff r.id c.id).0 g)))
  | inr g ↦ rw g refl
]

update_row_same :
    (c : Change) (r : Row) → c.id ≡ r.id → update_row c r ≡ record r { value = c.after }
update_row_same c r e = rw ((==_iff r.id c.id).1 (sym e)) refl

module _ (select : Text → Bool) (rewrite : Text → Text) where
  -- A row with the text that it should have.
  abbrev pub migrated : Row → Row
  migrated r = if select r.value then record r { value = rewrite r.value } else r

  abbrev selected_changes : List Row → List Change
  selected_changes rows = changes_of rewrite (filter (λ r. select r.value) rows)

  -- The changes of rows with other keys leave a row as it is.
  updated_other :
      (rows : List Row) (r : Row)
      → All (λ s. s.id ≢ r.id) rows
      → updated (selected_changes rows) r ≡ r
  updated_other [] r h = refl
  updated_other (s ∷ rows) r h = elim (Bool-cases (select s.value)) [
    | inl e ↦ elim (Bool-cases (text_eq s.value (rewrite s.value))) [
      | inl f ↦ rw (e, f) (updated_other rows r h.1)
      | inr f ↦
          rw (e, f)
            (ap (updated (selected_changes rows)) (update_row_other (change_of rewrite s) r h.0)
              ∙ updated_other rows r h.1)
    ]
    | inr e ↦ rw e (updated_other rows r h.1)
  ]

  -- The rows that follow are changed by their own changes only.
  updated_first :
      (s : Row) (rows : List Row) (r : Row)
      → s.id ≢ r.id
      → updated (selected_changes (s ∷ rows)) r ≡ updated (selected_changes rows) r
  updated_first s rows r n = elim (Bool-cases (select s.value)) [
    | inl e ↦ elim (Bool-cases (text_eq s.value (rewrite s.value))) [
      | inl f ↦ rw (e, f) refl
      | inr f ↦
          rw (e, f)
            (ap (updated (selected_changes rows)) (update_row_other (change_of rewrite s) r n))
    ]
    | inr e ↦ rw e refl
  ]

  updated_own :
      (r : Row) (rows : List Row)
      → All (λ s. s.id ≢ r.id) rows
      → updated (selected_changes (r ∷ rows)) r ≡ migrated r
  updated_own r rows h = elim (Bool-cases (select r.value)) [
    | inl e ↦ elim (Bool-cases (text_eq r.value (rewrite r.value))) [
      | inl f ↦
          rw (e, f)
            (updated_other rows r h
              ∙ ap (λ v. record r { value = v }) ((text_eq_iff r.value (rewrite r.value)).0 f))
      | inr f ↦
          rw (e, f)
            (ap (updated (selected_changes rows)) (update_row_same (change_of rewrite r) r refl)
              ∙ updated_other rows (record r { value = rewrite r.value }) h)
    ]
    | inr e ↦ rw e (updated_other rows r h)
  ]

  updated-All :
      (rows : List Row)
      → UniqueIds rows
      → All (λ r. updated (selected_changes rows) r ≡ migrated r) rows
  updated-All [] u = tt
  updated-All (r ∷ rows) (n, u) = (updated_own r rows n, rest rows n (updated-All rows u))
    where
      rest :
          (others : List Row)
          → All (λ s. s.id ≢ r.id) others
          → All (λ s. updated (selected_changes rows) s ≡ migrated s) others
          → All (λ s. updated (selected_changes (r ∷ rows)) s ≡ migrated s) others
      rest [] n h = tt
      rest (s ∷ others) n h = (updated_first r rows s (λ e. n.0 (sym e)) ∙ h.0, rest others n.1 h.1)

  -- The updates of the changed rows leave each row with the text that it should have.
  pub apply_changes-migrated :
      (rows : List Row)
      → UniqueIds rows
      → apply_changes (changes_of rewrite (filter (λ r. select r.value) rows)) rows
        ≡ map migrated rows
  apply_changes-migrated rows u =
      apply_changes-map (selected_changes rows) rows
      ∙ map-All (updated (selected_changes rows)) migrated rows (updated-All rows u)

  -- Behind that there is nothing to change, where to rewrite twice is to rewrite once.
  pub changes_of-migrated :
      (rows : List Row)
      → All (λ r. rewrite (rewrite r.value) ≡ rewrite r.value) rows
      → changes_of rewrite (filter (λ r. select r.value) (map migrated rows)) ≡ []
  changes_of-migrated [] h = refl
  changes_of-migrated (r ∷ rows) h = elim (Bool-cases (select r.value)) [
    | inl e ↦ elim (Bool-cases (select (rewrite r.value))) [
      | inl f ↦ rw (e, f, h.0, text_eq_refl (rewrite r.value)) (changes_of-migrated rows h.1)
      | inr f ↦ rw (e, f) (changes_of-migrated rows h.1)
    ]
    | inr e ↦ rw (e, e) (changes_of-migrated rows h.1)
  ]
