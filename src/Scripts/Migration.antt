-- ===== src/Scripts/Migration.antt =====
-- The run of scripts/migrate-db-refs-to-r2.js over the tables.
pub mod Paths
pub mod Twice
pub mod Updates
use vethealth_backend.Base.{
  ℕ, ◌+◌, Bool, true, false, not, ◌&&◌, ◌||◌, Option, none, some, List, [], ◌∷◌, ◌++◌, map, filter,
  length, Text, codes, truthy, text_eq, ltb, ◌==◌, if◌then◌else◌,
}
use vethealth_backend.Files.{is_word}
use vethealth_backend.Files.Paths.{or_empty, bucket_part}
use vethealth_backend.Scripts.References.{normalize_file_key, behind}
use vethealth_backend.Scripts.Rewrites.{rewrite_image_refs, optional}

-- A row with its primary key, and the text in one of its columns. Rows where the column is null are
-- left out: no query of the script selects them.
pub record Row : Type 0 where
  pub id : ℕ
  pub value : Text

-- A row to update.
pub record Change : Type 0 where
  pub id : ℕ
  pub before : Text
  pub after : Text

-- The table and the column of `urlFields`
pub data UrlField : Type 0 where
  posts_content posts_featured_image_url pages_content : UrlField
  metadata_og_image metadata_twitter_image metadata_canonical_url : UrlField
  metadata_structured_data : UrlField

abbrev pub url_fields : List UrlField
url_fields =
    posts_content ∷ posts_featured_image_url ∷ pages_content ∷ metadata_og_image
    ∷ metadata_twitter_image ∷ metadata_canonical_url ∷ metadata_structured_data ∷ []

abbrev pub number : UrlField → ℕ
number posts_content = 0
number posts_featured_image_url = 1
number pages_content = 2
number metadata_og_image = 3
number metadata_twitter_image = 4
number metadata_canonical_url = 5
number metadata_structured_data = 6

-- The columns that the script reads and writes. A column gives back the text that was written.
pub record Database : Type 0 where
  pub files_path : List Row
  pub column : UrlField → List Row

abbrev pub change_of : (Text → Text) → Row → Change
change_of rewrite r = record { id = r.id; before = r.value; after = rewrite r.value }

-- `rows.map(...).filter((c) => c.before !== c.after)`
abbrev pub changes_of : (Text → Text) → List Row → List Change
changes_of rewrite [] = []
changes_of rewrite (r ∷ rows) =
    let rest = changes_of rewrite rows in
    if text_eq r.value (rewrite r.value) then rest else change_of rewrite r ∷ rest

-- `UPDATE ... SET ... WHERE id = ?`
abbrev pub update_row : Change → Row → Row
update_row c r = if r.id == c.id then record r { value = c.after } else r

abbrev pub apply_changes : List Change → List Row → List Row
apply_changes [] rows = rows
apply_changes (c ∷ changes) rows = apply_changes changes (map (update_row c) rows)

abbrev pub written : (execute : Bool) → List Change → List Row → List Row
written execute changes rows = if execute then apply_changes changes rows else rows

-- `migrateFilesPath`: how many rows are to be updated, and the column afterwards
unfoldable pub migrate_files_path : (execute : Bool) → List Row → ℕ × List Row
migrate_files_path execute rows =
    let changes = changes_of normalize_file_key rows in
    (length changes, written execute changes rows)

-- `migrateUrlField`; `like` is the database's test of the two patterns.
unfoldable pub migrate_url_field :
    (like : Text → Bool) (execute : Bool) (public_base : Text) → List Row → ℕ × List Row
migrate_url_field like execute public_base rows =
    let changes =
      changes_of (λ v. rewrite_image_refs v public_base) (filter (λ r. like r.value) rows) in
    (length changes, written execute changes rows)

abbrev pub set_column : UrlField → List Row → Database → Database
set_column f rows db = record db {
  column = λ g. if number g == number f then rows else db.column g;
}

-- The loop over `urlFields`
abbrev pub migrate_fields :
    (like : Text → Bool) (execute : Bool) (public_base : Text)
    → List UrlField
    → ℕ
    → Database
    → ℕ × Database
migrate_fields like execute public_base [] total db = (total, db)
migrate_fields like execute public_base (f ∷ fields) total db =
    let (n, rows) = migrate_url_field like execute public_base (db.column f) in
    migrate_fields like execute public_base fields (total + n) (set_column f rows db)

-- `REGEXP 'https?//'` at the start of a text, in letters of any case
abbrev pub malformed_here : Text → Option Text
malformed_here t = elim (behind (codes "http") t) [
  | none ↦ none
  | some u ↦ behind (codes "//") (optional (codes "s") u)
]

abbrev pub is_malformed : Text → Bool
is_malformed [] = false
is_malformed (c ∷ t) = elim (malformed_here (c ∷ t)) [ none ↦ is_malformed t | some u ↦ true ]

abbrev count_malformed : List Row → ℕ
count_malformed rows = length (filter (λ r. is_malformed r.value) rows)

abbrev pub count_columns : List UrlField → Database → ℕ
count_columns [] db = 0
count_columns (f ∷ fields) db = count_malformed (db.column f) + count_columns fields db

-- `verifyNoMalformedRefs`
abbrev pub verify_no_malformed_refs : Database → ℕ
verify_no_malformed_refs db = count_malformed db.files_path + count_columns url_fields db

-- `value.replace(/\/+$/, '')`
abbrev pub strip_trailing : Text → Text
strip_trailing [] = []
strip_trailing (c ∷ t) =
    let rest = strip_trailing t in if c == b'/' && not (truthy rest) then [] else c ∷ rest

-- The environment variables that the base needs.
pub record Variables : Type 0 where
  pub file_cdn_base_url : Option Text
  pub file_s3_public_url : Option Text
  pub file_cdn_include_bucket_in_path : Option Text
  pub file_s3_bucket : Option Text

abbrev pub first_set : Text → Text → Text
first_set s t = if truthy s then s else t

-- `derivePublicBase`
unfoldable pub derive_public_base : Variables → Text
unfolding codes
derive_public_base vars =
    let base =
      first_set (strip_trailing (or_empty vars.file_cdn_base_url))
        (strip_trailing (or_empty vars.file_s3_public_url)) in
    let include_bucket = is_word (codes "true") (or_empty vars.file_cdn_include_bucket_in_path) in
    if truthy base then base ++ bucket_part include_bucket vars.file_s3_bucket else []

-- What a run prints at its end, with the code it exits with.
pub record Report : Type 0 where
  pub total : ℕ
  pub malformed : ℕ
  pub exit_code : ℕ

-- The files, and then the other columns
unfoldable pub migrate_tables :
    (like : Text → Bool) (execute : Bool) (public_base : Text) → Database → ℕ × Database
migrate_tables like execute public_base db =
    let (n, rows) = migrate_files_path execute db.files_path in
    migrate_fields like execute public_base url_fields n (record db { files_path = rows })

abbrev pub reported : (execute : Bool) → ℕ × Database → Report × Database
reported execute (total, db) =
    let malformed = verify_no_malformed_refs db in
    (
      record {
        total = total;
        malformed = malformed;
        exit_code = if execute && ltb 0 malformed then 2 else 0;
      },
      db,
    )

-- `main`, without `--inspect`, over a database that answers; none where it throws before it connects.
unfoldable pub migrate :
    (like : Text → Bool) (execute : Bool) (public_url : Text)
    → Variables
    → Database
    → Option (Report × Database)
migrate like execute public_url vars db =
    let public_base = first_set public_url (derive_public_base vars) in
    if truthy public_base
    then some (reported execute (migrate_tables like execute public_base db))
    else none
