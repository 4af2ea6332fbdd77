-- ===== src/Files/Storages.antt =====
-- The configuration of files (config/file.config.ts), and the public addresses that the storages of
-- modules/files/storage give.
use vethealth_backend.Base.{
  Bool, true, false, not, ◌&&◌, Option, none, some, ◌∷◌, ◌++◌, Text, codes, truthy, text_eq,
  if◌then◌else◌,
}
use vethealth_backend.Search.{includes}
use vethealth_backend.Files.Paths.{
  FileConfig, strip_leading, strip_last, bucket_part, starts_with_slash, or_empty,
}

-- `FileStorageDriver`
pub data FileStorageDriver : Type 0 where
  local s3 r2 seaweed : FileStorageDriver

-- The environment variables that the addresses need, and whether the validator of them all is
-- content; only then has the driver one of the known names.
pub record Variables : Type 0 where
  pub is_valid : Bool
  pub file_storage_driver : Option FileStorageDriver
  pub file_s3_public_url : Option Text
  pub file_cdn_base_url : Option Text
  pub file_s3_bucket : Option Text
  pub file_cdn_include_bucket_in_path : Option Text

abbrev pub is_local_driver : Option FileStorageDriver → Bool
is_local_driver none = true
is_local_driver (some local) = true
is_local_driver (some _) = false

abbrev pub is_r2 : Option FileStorageDriver → Bool
is_r2 (some r2) = true
is_r2 _ = false

-- What is returned of the configuration.
abbrev pub settings : Variables → (backend_domain : Text) → FileConfig
settings vars backend_domain = record {
  is_local = is_local_driver vars.file_storage_driver;
  cdn_base_url = vars.file_cdn_base_url;
  s3_public_url = vars.file_s3_public_url;
  cdn_include_bucket_in_path =
      text_eq (or_empty vars.file_cdn_include_bucket_in_path) (codes "true");
  s3_bucket = vars.file_s3_bucket;
  backend_domain = backend_domain;
}

-- `registerAs('file', ...)`; none where it throws. The domain is that of `appConfig()`.
unfoldable pub file_config : Variables → (backend_domain : Text) → Option FileConfig
file_config vars backend_domain =
    if not vars.is_valid
    then none
    else if not (is_local_driver vars.file_storage_driver)
        && (not (truthy (or_empty vars.file_s3_public_url))
            && not (truthy (or_empty vars.file_cdn_base_url)))
    then none
    else if is_r2 vars.file_storage_driver
        && includes (codes "r2.cloudflarestorage.com") (or_empty vars.file_s3_public_url)
    then none
    else some (settings vars backend_domain)

-- The storages that `FileStorageFactory` chooses from.
pub data Storage : Type 0 where
  local_storage s3_compatible_storage : Storage

abbrev pub get_storage : FileConfig → Storage
get_storage config = if config.is_local then local_storage else s3_compatible_storage

-- `get('file.cdnBaseUrl') || getOrThrow('file.s3PublicUrl')`
abbrev pub public_url : (cdn_base_url s3_public_url : Option Text) → Option Text
public_url none s3_public_url = s3_public_url
public_url (some cdn) s3_public_url = if truthy cdn then some cdn else s3_public_url

abbrev pub s3_address : FileConfig → Text → Option Text → Option Text
s3_address config key none = none
s3_address config key (some url) = some (
    strip_last url
    ++ (bucket_part config.cdn_include_bucket_in_path config.s3_bucket
        ++ (b'/' ∷ strip_leading key)))

-- `getPublicUrl`; none where it throws.
abbrev pub storage_url : Storage → FileConfig → Text → Option Text
storage_url local_storage config key =
    some (config.backend_domain ++ (if starts_with_slash key then key else b'/' ∷ key))
storage_url s3_compatible_storage config key =
    s3_address config key (public_url config.cdn_base_url config.s3_public_url)

-- The address that the chosen storage gives for a key.
unfoldable pub get_public_url : FileConfig → Text → Option Text
get_public_url config key = storage_url (get_storage config) config key
