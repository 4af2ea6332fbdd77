-- ===== src/Files/Tests.antt =====
-- An AVIF image with the name of a JPEG.
use vethealth_backend.Base.{
  ℕ, ◌≡◌, ◌≤◌, refl, true, false, some, none, List, [], ◌∷◌, ◌++◌, Text, codes, text_eq, is_space,
}
use vethealth_backend.Files.{sniff_image_type, reconcile_extension, is_image_name}
use vethealth_backend.Files.Service.{
  Error, too_large, ok, err, topic, Upload, World, Env, UploadPresigned, upload_one, upload_file,
  wrong_type, create_presigned_upload,
}
use vethealth_backend.Files.Forms.{IsMirrored, upload_file-IsMirrored}
use vethealth_backend.Files.Paths.{FileConfig, update_path}
use vethealth_backend.Files.Storages.{Variables, r2, file_config, get_public_url}
use vethealth_backend.Files.Addresses.{get_public_url-update_path}
use vethealth_backend.Files.Uploads.{create_presigned_upload_sound}

tests : Unit {0}
unfolding sniff_image_type reconcile_extension upload_one upload_file create_presigned_upload codes
    text_eq is_space
tests = tt

abbrev avif : List ℕ
avif = 0 ∷ 0 ∷ 0 ∷ 32 ∷ (codes "ftypavif" ++ (1 ∷ 2 ∷ []))

abbrev world : World
world = record { disk = (codes "uploads/cat.jpg", avif) ∷ []; objects = []; rows = [] }

abbrev env : Env
env = record {
  extname = λ t. codes ".jpg";
  lower = λ t. t;
  utf8 = λ b. b;
  slug_of = λ t. codes "cat";
  suffix = [];
  today = [];
  sign = λ key content_type n. some (codes "https://");
  storage_up = true;
  saves = λ path. true;
  is_local = false;
  max_file_size = 100;
}

abbrev file : Upload
file = record {
  original_name = codes "cat.jpg";
  path = codes "uploads/cat.jpg";
  mime_type = codes "image/jpeg";
}

abbrev presigned : UploadPresigned
presigned = record {
  field = topic;
  file_name = codes "cat.jpg";
  file_size = 100;
  content_type = codes "image/jpeg";
}

upload_tests :
    (upload_one env file world ≡ (
      ok (codes "cat.avif"),
      record {
        disk = [];
        objects =
            record { key = codes "cat.avif"; content_type = codes "image/avif"; body = avif } ∷ [];
        rows = codes "cat.avif" ∷ [];
      },
    ))
    × ((create_presigned_upload env (some presigned) world).0
        ≡ ok (codes "images/topics/cat.jpg", codes "https://"))
    × ((create_presigned_upload env (some (record presigned { file_size = 101 })) world).0
        ≡ err too_large)
unfolding tests
upload_tests = (refl, refl, refl)

create_presigned_upload_sound_example :
    ((x : Error)
      → (create_presigned_upload env (some presigned) world).0 ≡ err x
      → (create_presigned_upload env (some presigned) world).1 ≡ world)
    × ((key url : Text)
        → (create_presigned_upload env (some presigned) world).0 ≡ ok (key, url)
        → (i : UploadPresigned) × (some presigned ≡ some i)
          × (is_image_name i.file_name ≡ true)
          × (i.file_size ≤ env.max_file_size)
          × (env.is_local ≡ false)
          × (env.sign key i.content_type i.file_size ≡ some url)
          × ((create_presigned_upload env (some presigned) world).1.rows ≡ key ∷ world.rows))
create_presigned_upload_sound_example = create_presigned_upload_sound env (some presigned) world

-- A form whose second file has no name of an image.
abbrev form : List (Text × Upload)
form = (codes "topic", file) ∷ (codes "post", record file { original_name = codes "cat.txt" }) ∷ []

upload_file_tests :
    ((upload_file env (some form) world).0 ≡ err wrong_type)
    × ((upload_file env (some form) world).1.rows ≡ codes "cat.avif" ∷ [])
unfolding tests
upload_file_tests = (refl, refl)

upload_file-IsMirrored_example :
    IsMirrored env world (upload_file env (some form) world).0 (upload_file env (some form) world).1
upload_file-IsMirrored_example = upload_file-IsMirrored env (some form) world refl

abbrev variables : Variables
variables = record {
  is_valid = true;
  file_storage_driver = some r2;
  file_s3_public_url = some (codes "https://cdn.site/");
  file_cdn_base_url = none;
  file_s3_bucket = some (codes "b");
  file_cdn_include_bucket_in_path = some (codes "true");
}

abbrev config : FileConfig
config = record {
  is_local = false;
  cdn_base_url = none;
  s3_public_url = some (codes "https://cdn.site/");
  cdn_include_bucket_in_path = true;
  s3_bucket = some (codes "b");
  backend_domain = codes "https://site";
}

address_tests : Unit {0}
unfolding file_config get_public_url update_path codes text_eq
address_tests = tt

configuration_tests :
    (file_config (record variables { file_s3_public_url = none }) (codes "https://site") ≡ none)
    × (file_config
          (record variables {
            file_s3_public_url = some (codes "https://a.r2.cloudflarestorage.com");
          })
          (codes "https://site")
        ≡ none)
    × (get_public_url config (codes "images/cat.svg")
        ≡ some (codes "https://cdn.site/b/images/cat.svg"))
unfolding address_tests
configuration_tests = (refl, refl, refl)

get_public_url-update_path_example :
    get_public_url config (codes "images/cat.svg")
    ≡ some (update_path config (codes "images/cat.svg")).path
unfolding address_tests
get_public_url-update_path_example =
    get_public_url-update_path variables (codes "https://site") config (codes "images/cat.svg") refl
      refl refl
