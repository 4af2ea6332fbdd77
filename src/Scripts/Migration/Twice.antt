-- ===== src/Scripts/Migration/Twice.antt =====
-- Two runs of the migration.
use vethealth_backend.Base.{
  ℕ, ◌+◌, ◌≡◌, ◌≢◌, ◌∙◌, refl, sym, ap, subst, fun_ext, Bool, true, false, Option, none, some, List,
  [], ◌∷◌, map, filter, Text, All, All-map, ◌==◌, ==_iff, if◌then◌else◌, Bool-cases, inl, inr,
  truthy,
}
use vethealth_backend.Scripts.References.{normalize_file_key}
use vethealth_backend.Scripts.Rewrites.{rewrite_image_refs}
use vethealth_backend.Scripts.Rewrites.Bases.{IsBase}
use vethealth_backend.Scripts.Rewrites.Twice.{rewrite_image_refs_twice}
use vethealth_backend.Scripts.Migration.{
  Row, UrlField, posts_content, posts_featured_image_url, pages_content, metadata_og_image,
  metadata_twitter_image, metadata_canonical_url, metadata_structured_data, url_fields, number,
  Database, written, migrate_files_path, migrate_url_field, set_column, migrate_fields, Variables,
  derive_public_base, first_set, Report, migrate, migrate_tables, reported,
}
use vethealth_backend.Scripts.Migration.Paths.{IsNormal, normalize_file_key_again}
use vethealth_backend.Scripts.Migration.Updates.{
  UniqueIds, migrated, apply_changes-migrated, changes_of-migrated,
}

-- Keys are unique, and no path has `uploads/` twice in front.
pub record IsMigratable (db : Database) : Type 0 where
  pub files_unique : UniqueIds db.files_path
  pub columns_unique : (f : UrlField) → UniqueIds (db.column f)
  pub normal : All (λ r. IsNormal r.value) db.files_path

written_nil : (execute : Bool) (rows : List Row) → written execute [] rows ≡ rows
written_nil true rows = refl
written_nil false rows = refl

filter_all : (rows : List Row) → filter (λ r. true) rows ≡ rows
filter_all [] = refl
filter_all (r ∷ rows) = ap (λ rs. r ∷ rs) (filter_all rows)

All-of : {A : Type 0} (P : A → Type 0) (xs : List A) → ((x : A) → P x) → All P xs
All-of P [] f = tt
All-of P (x ∷ xs) f = (f x, All-of P xs f)

-- A column that is migrated has no changes left.
migrate_url_field_twice :
    (like : Text → Bool) (execute : Bool) (base : Text) (rows : List Row)
    → IsBase base
    → UniqueIds rows
    → let rows' = (migrate_url_field like true base rows).1 in
      migrate_url_field like execute base rows' ≡ (0, rows')
unfolding migrate_url_field
migrate_url_field_twice like execute base rows b u =
    let rewrite : Text → Text = λ v. rewrite_image_refs v base in
    let same = apply_changes-migrated like rewrite rows u in
    let none_left = changes_of-migrated like rewrite rows (
      All-of (λ r. rewrite (rewrite r.value) ≡ rewrite r.value) rows
        (λ r. rewrite_image_refs_twice base r.value b)) in
    rw (same, none_left, written_nil execute (map (migrated like rewrite) rows)) refl

migrate_files_path_twice :
    (execute : Bool) (rows : List Row)
    → UniqueIds rows
    → All (λ r. IsNormal r.value) rows
    → let rows' = (migrate_files_path true rows).1 in migrate_files_path execute rows' ≡ (0, rows')
unfolding migrate_files_path
migrate_files_path_twice execute rows u n =
    let same =
      rw (filter_all rows) at (apply_changes-migrated (λ t. true) normalize_file_key rows u) in
    let none_left = rw (filter_all (map (migrated (λ t. true) normalize_file_key) rows)) at (
      changes_of-migrated (λ t. true) normalize_file_key rows
        (All-map (λ r. IsNormal r.value)
          (λ r. normalize_file_key (normalize_file_key r.value) ≡ normalize_file_key r.value) rows
          (λ r. normalize_file_key_again r.value) n)) in
    rw (same, none_left, written_nil execute (map (migrated (λ t. true) normalize_file_key) rows))
      refl

field_of : ℕ → UrlField
field_of n =
    if n == 0
    then posts_content
    else if n == 1
    then posts_featured_image_url
    else if n == 2
    then pages_content
    else if n == 3
    then metadata_og_image
    else if n == 4
    then metadata_twitter_image
    else if n == 5
    then metadata_canonical_url
    else metadata_structured_data

field_of-number : (f : UrlField) → field_of (number f) ≡ f
unfolding field_of
field_of-number posts_content = refl
field_of-number posts_featured_image_url = refl
field_of-number pages_content = refl
field_of-number metadata_og_image = refl
field_of-number metadata_twitter_image = refl
field_of-number metadata_canonical_url = refl
field_of-number metadata_structured_data = refl

number_injective : (f g : UrlField) → number f ≡ number g → f ≡ g
number_injective f g e = sym (field_of-number f) ∙ (ap field_of e ∙ field_of-number g)

-- A column that is set to what it is.
set_column_self : (f : UrlField) (db : Database) → set_column f (db.column f) db ≡ db
set_column_self f db =
    ap (λ c. record db { column = c })
      (fun_ext (λ g. elim (Bool-cases (number g == number f)) [
        | inl e ↦
            rw e (ap db.column (sym (number_injective g f ((==_iff (number g) (number f)).0 e))))
        | inr e ↦ rw e refl
      ]))

module _ (like : Text → Bool) (base : Text) where
  migrate_fields-done :
      (execute : Bool) (fields : List UrlField) (db : Database)
      → ((f : UrlField) → migrate_url_field like execute base (db.column f) ≡ (0, db.column f))
      → migrate_fields like execute base fields 0 db ≡ (0, db)
  migrate_fields-done execute [] db h = refl
  migrate_fields-done execute (f ∷ fields) db h =
      rw (h f, set_column_self f db) (migrate_fields-done execute fields db h)

  migrate_fields-column :
      (n : ℕ) (db : Database) (f : UrlField)
      → (migrate_fields like true base url_fields n db).1.column f
        ≡ (migrate_url_field like true base (db.column f)).1
  migrate_fields-column n db posts_content = refl
  migrate_fields-column n db posts_featured_image_url = refl
  migrate_fields-column n db pages_content = refl
  migrate_fields-column n db metadata_og_image = refl
  migrate_fields-column n db metadata_twitter_image = refl
  migrate_fields-column n db metadata_canonical_url = refl
  migrate_fields-column n db metadata_structured_data = refl

  migrate_fields-files_path :
      (execute : Bool) (fields : List UrlField) (n : ℕ) (db : Database)
      → (migrate_fields like execute base fields n db).1.files_path ≡ db.files_path
  migrate_fields-files_path execute [] n db = refl
  migrate_fields-files_path execute (f ∷ fields) n db =
      let (m, rows) = migrate_url_field like execute base (db.column f) in
      migrate_fields-files_path execute fields (n + m) (set_column f rows db)

  -- The tables behind a run.
  after_run : Database → Database
  after_run db = (migrate_tables like true base db).1

  columns_done :
      (execute : Bool) (db : Database) (f : UrlField)
      → IsBase base
      → IsMigratable db
      → migrate_url_field like execute base ((after_run db).column f) ≡ (0, (after_run db).column f)
  unfolding after_run migrate_tables
  columns_done execute db f b m =
      let (n, rows) = migrate_files_path true db.files_path in
      rw (migrate_fields-column n (record db { files_path = rows }) f)
        (migrate_url_field_twice like execute base (db.column f) b (m.columns_unique f))

  files_done :
      (execute : Bool) (db : Database)
      → IsMigratable db
      → migrate_files_path execute (after_run db).files_path ≡ (0, (after_run db).files_path)
  unfolding after_run migrate_tables
  files_done execute db m =
      let (n, rows) = migrate_files_path true db.files_path in
      rw (migrate_fields-files_path true url_fields n (record db { files_path = rows }))
        (migrate_files_path_twice execute db.files_path m.files_unique m.normal)

none-ne_some : {A : Type 0} {a : A} → none ≢ some a
none-ne_some e = cc

migrate_tables-done :
    (like : Text → Bool) (execute : Bool) (base : Text) (db : Database)
    → migrate_files_path execute db.files_path ≡ (0, db.files_path)
    → ((f : UrlField) → migrate_url_field like execute base (db.column f) ≡ (0, db.column f))
    → migrate_tables like execute base db ≡ (0, db)
unfolding migrate_tables
migrate_tables-done like execute base db files columns =
    ap (λ p. migrate_fields like execute base url_fields p.0 (record db { files_path = p.1 })) files
    ∙ migrate_fields-done like base execute url_fields db columns

state_of : Database → Option (Report × Database) → Database
state_of db none = db
state_of db (some p) = p.1

-- Behind a run of the migration that writes, a second run with the same base finds no row to update
-- and leaves the tables as they are, whether it writes or not. The base is a well-formed address,
-- primary keys are unique, and no path of a file has the prefix `uploads/` twice.
pub migrate_twice :
    (like : Text → Bool) (execute : Bool) (public_url : Text) (vars : Variables) (db : Database)
    → IsBase (first_set public_url (derive_public_base vars))
    → IsMigratable db
    → (report : Report) (db' : Database) → migrate like true public_url vars db ≡ some (report, db')
    → (again : Report) × (migrate like execute public_url vars db' ≡ some (again, db'))
      × (again.total ≡ 0)
unfolding migrate after_run state_of
migrate_twice like execute public_url vars db b m report db' e =
    let base = first_set public_url (derive_public_base vars) in
    elim (Bool-cases (truthy base)) [
      | inr t ↦ absurd (none-ne_some (rw t at e))
      | inl t ↦
          let d = after_run like base db in
          let same : d ≡ db' = ap (state_of db) (rw t at e) in
          subst
            (λ x.
              (again : Report) × (migrate like execute public_url vars x ≡ some (again, x))
              × (again.total ≡ 0))
            same
            (
              (reported execute (0, d)).0,
              rw t (
                  ap (λ p. some (reported execute p))
                    (migrate_tables-done like execute base d (files_done like base execute db m)
                      (λ f. columns_done like base execute db f b m))),
              refl,
            )
    ]
