-- ===== src/Repository.antt =====
-- What the services use of a TypeORM `Repository`: an interface, which a service takes as a
-- parameter. `rows` is the abstract view of the stored table, the rows that are not deleted; the
-- laws say what each call documents about it.
pub mod Memory
pub mod Tombstones
pub mod Rows
use vethealth_backend.Base.{
  ◌≡◌, Bool, true, not, Option, List, [], ◌∷◌, ◌++◌, map, Text, filter, first, any, if◌then◌else◌,
}

-- A partial update of the rows with a key, as `save` and `update` write it.
abbrev pub update_rows {ℓ} : {R : Type ℓ} → (R → Bool) → (R → R) → List R → List R
update_rows has f = map (λ r. if has r then f r else r)

-- `R` is the type of rows, `W` that of `where` conditions, which `fits` reads; `has k` tests the
-- primary key; `S` is the state of the store.
pub record Repository (R W S : Type 0) (fits : W → R → Bool) (has : Text → R → Bool) : Type 0 where
  pub rows : S → List R
  -- `findOne({ where })`
  pub find_one : W → S → Option R
  -- `save(create(row))` of a row with a new key
  pub insert : R → S → S
  -- `save(create(partial))` and `update(id, partial)`
  pub update : Text → (R → R) → S → S
  -- `softDelete(where)` and `delete(where)`
  pub remove : W → S → S
  pub find_one-rows : (w : W) (s : S) → find_one w s ≡ first (fits w) (rows s)
  pub rows-insert : (r : R) (s : S) → rows (insert r s) ≡ rows s ++ (r ∷ [])
  pub rows-update :
      (k : Text) (f : R → R) (s : S)
      → any (has k) (rows s) ≡ true
      → rows (update k f s) ≡ update_rows (has k) f (rows s)
  pub rows-remove : (w : W) (s : S) → rows (remove w s) ≡ filter (λ r. not (fits w r)) (rows s)
