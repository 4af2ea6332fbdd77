-- ===== src/Scripts/Tests/Copies.antt =====
-- A folder with two files, one of them in a folder of its own.
use vethealth_backend.Base.{
  ℕ, ◌≡◌, refl, true, some, List, [], ◌∷◌, ◌++◌, Text, codes, text_eq, split, join, is_space,
}
use vethealth_backend.Scripts.References.{key_here, normalize_file_key, strip_uploads_prefix}
use vethealth_backend.Files.Service.{storage_key_of}
use vethealth_backend.Scripts.Environment.{Environment, get_env, load_env_file_if_exists}
use vethealth_backend.Scripts.Environment.Printed.{print_env, load_env_file_if_exists-print_env}
use vethealth_backend.Scripts.Copies.{
  file, directory, link, Entries, end, entry, World, walk_entries, to_object_key, upload_files,
  smoke_check, sample_array, copy_uploads,
}
use vethealth_backend.Scripts.Copies.Keys.{path_text, to_object_key-agrees}
use vethealth_backend.Scripts.Copies.Ends.{executed}

tests : Unit {0}
unfolding walk_entries to_object_key upload_files smoke_check sample_array copy_uploads
    load_env_file_if_exists key_here normalize_file_key strip_uploads_prefix codes text_eq split
    join is_space
tests = tt

abbrev environment : Environment
environment =
    (codes "FILE_S3_ENDPOINT", codes "e")
    ∷ (codes "FILE_S3_BUCKET", codes "b")
    ∷ (codes "FILE_S3_ACCESS_KEY", codes "a")
    ∷ (codes "FILE_S3_SECRET_KEY", codes "s")
    ∷ []

abbrev raw : Text
raw = codes "# storage\r\nFILE_S3_PUBLIC_URL = 'https://cdn.site'\r\nFILE_S3_BUCKET=other\n"

loaded : Environment
unfolding tests
loaded = (load_env_file_if_exists (some raw) environment).1

load_tests :
    (get_env (codes "FILE_S3_PUBLIC_URL") loaded ≡ some (codes "https://cdn.site"))
    × (get_env (codes "FILE_S3_BUCKET") loaded ≡ some (codes "b"))
unfolding tests loaded
load_tests = (refl, refl)

abbrev quoted : List (Text × Text)
quoted = (codes "KEY", codes "a \"b\" = c # d") ∷ (codes "FILE_S3_BUCKET", codes "other") ∷ []

load_env_file_if_exists-print_env_example :
    get_env
      (codes "FILE_S3_BUCKET")
      (load_env_file_if_exists (some (print_env quoted)) environment).1
    ≡ some (codes "b")
unfolding tests
load_env_file_if_exists-print_env_example =
    load_env_file_if_exists-print_env quoted environment (codes "FILE_S3_BUCKET")
      (((refl, refl), refl), (((refl, refl), refl), tt))

abbrev folder : Entries
folder =
    entry (codes "images")
      (directory (entry (codes "a.png") (file (1 ∷ [])) (entry (codes "l") link end)))
      (entry (codes "b") (file (2 ∷ [])) end)

abbrev world : World
world = record {
  extension = λ path. codes ".png";
  takes = λ key. true;
  status = λ url. 200;
  random_int = λ n. 0;
}

copy_tests :
    (copy_uploads world (executed 1) loaded (some folder) []).1
    ≡ (codes "b", record { content_type = codes "image/png"; body = 2 ∷ [] })
      ∷ (codes "images/a.png", record { content_type = codes "image/png"; body = 1 ∷ [] })
      ∷ []
unfolding tests loaded
copy_tests = refl

abbrev cat : List Text
cat = codes "images" ∷ codes "topics" ∷ codes "cat.svg" ∷ []

to_object_key-agrees_example :
    (to_object_key [] cat ≡ storage_key_of (codes "uploads/" ++ path_text cat))
    × (to_object_key [] cat ≡ normalize_file_key (codes "/uploads/" ++ path_text cat))
unfolding tests
to_object_key-agrees_example =
    to_object_key-agrees cat ((refl, refl), ((refl, refl), ((refl, refl), tt))) refl refl

abbrev numbers : List ℕ
numbers = 1 ∷ 2 ∷ 3 ∷ []
