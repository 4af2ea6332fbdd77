-- ===== src/Scripts/Tests/Migration.antt =====
-- A migration of a few rows, with a reference whose scheme has lost its colon.
use vethealth_backend.Base.{
  ◌++◌, ℕ, ◌≡◌, ◌≢◌, refl, inr, true, false, none, some, List, [], ◌∷◌, Text, codes, text_eq,
  is_space, arith,
}
use vethealth_backend.Files.Paths.{update_path}
use vethealth_backend.Files.Storages
use vethealth_backend.Files.Storages.{file_config, settings, r2}
use vethealth_backend.Scripts.References.{key_here, strip_uploads_prefix, normalize_file_key}
use vethealth_backend.Scripts.Rewrites.{rewrite_image_refs, match_here, scheme_rest}
use vethealth_backend.Scripts.Rewrites.Bases.{IsBase}
use vethealth_backend.Scripts.Migration.{
  Row, UrlField, posts_content, posts_featured_image_url, pages_content, metadata_og_image,
  metadata_twitter_image, metadata_canonical_url, metadata_structured_data, reported, Database,
  Variables, derive_public_base, Report, migrate, migrate_tables, migrate_files_path,
  migrate_url_field,
}
use vethealth_backend.Scripts.Migration.Updates.{UniqueIds}
use vethealth_backend.Scripts.Migration.Twice.{IsMigratable, migrate_twice}
use vethealth_backend.Scripts.Addresses.{variables_of}
use vethealth_backend.Scripts.Origins.{address, rewrite_image_refs-update_path}

tests : Unit {0}
unfolding migrate migrate_tables migrate_files_path migrate_url_field rewrite_image_refs match_here
    scheme_rest key_here normalize_file_key strip_uploads_prefix derive_public_base codes text_eq
    is_space file_config update_path
tests = tt

abbrev service : Storages.Variables
service = record {
  is_valid = true;
  file_storage_driver = some r2;
  file_s3_public_url = none;
  file_cdn_base_url = some (codes "https://cdn.site/");
  file_s3_bucket = some (codes "b");
  file_cdn_include_bucket_in_path = some (codes "true");
}

abbrev variables : Variables
variables = variables_of service

abbrev base : Text
base = codes "https://cdn.site/b"

abbrev content : Text
content = codes "\"src\":\"https//old.site/images/posts/a.png\" and images/topics/b.svg"

abbrev column : UrlField → List Row
column posts_content =
    record { id = 1; value = content } ∷ record { id = 2; value = codes "-" } ∷ []
column f = []

abbrev database : Database
database = record {
  files_path =
      record { id = 1; value = codes "/uploads/images/topics/cat.svg" }
      ∷ record { id = 2; value = codes "uploads/x" }
      ∷ [];
  column = column;
}

migrate_tests :
    (rewrite_image_refs content base
      ≡ codes
          "\"src\":\"https://cdn.site/b/images/posts/a.png\" and https://cdn.site/b/images/topics/b.svg")
    × (rewrite_image_refs (codes "x images/other/a.png") base ≡ codes "x images/other/a.png")
    × (derive_public_base variables ≡ base)
    × ((migrate_tables (λ t. true) true base database).0 ≡ 3)
unfolding tests
migrate_tests = (refl, refl, refl, refl)

base-IsBase : IsBase base
unfolding tests
base-IsBase = record {
  host = codes "cdn.site/b";
  scheme = inr refl;
  allowed = refl;
  no_images = refl;
}

two_ne_one : ◌≢◌ {A = ℕ} 2 1
two_ne_one e = absurd (omega arith)

column-UniqueIds : (f : UrlField) → UniqueIds (column f)
column-UniqueIds posts_content = ((two_ne_one, tt), (tt, tt))
column-UniqueIds posts_featured_image_url = tt
column-UniqueIds pages_content = tt
column-UniqueIds metadata_og_image = tt
column-UniqueIds metadata_twitter_image = tt
column-UniqueIds metadata_canonical_url = tt
column-UniqueIds metadata_structured_data = tt

database-IsMigratable : IsMigratable database
unfolding tests
database-IsMigratable = record {
  files_unique = ((two_ne_one, tt), (tt, tt));
  columns_unique = column-UniqueIds;
  normal = (refl, (refl, tt));
}

abbrev after : ℕ × Database
after = migrate_tables (λ t. true) true base database

migrate_twice_example :
    (again : Report) × (migrate (λ t. true) false [] variables after.1 ≡ some (again, after.1))
    × (again.total ≡ 0)
unfolding tests
migrate_twice_example =
    migrate_twice (λ t. true) false [] variables database base-IsBase database-IsMigratable
      (reported true after).0 after.1 refl

rewrite_image_refs-update_path_example :
    (rewrite_image_refs (codes "https//old.site/images/posts/a.png") (derive_public_base variables)
      ≡ (update_path (settings service []) (codes "images/posts/a.png")).path)
    × (rewrite_image_refs (codes "/uploads/images/posts/a.png") (derive_public_base variables)
        ≡ codes "/uploads" ++ (update_path (settings service []) (codes "images/posts/a.png")).path)
unfolding tests
rewrite_image_refs-update_path_example =
    rewrite_image_refs-update_path service [] (settings service [])
      (address true false (codes "old.site/")) (codes "images/posts/a.png") refl refl
      (record { cdn = inr (codes "https://cdn.site", refl, refl, inr refl); s3 = tt; flag = refl })
      (refl, refl) refl refl
