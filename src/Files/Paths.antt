-- ===== src/Files/Paths.antt =====
-- `updatePath` of modules/files/entities/file.entity.ts: the address of a stored file, from the path
-- in its row.
use vethealth_backend.Base.{
  Bool, true, false, ◌||◌, Option, none, some, [], ◌∷◌, ◌++◌, Text, codes, truthy, ◌==◌,
  if◌then◌else◌,
}
use vethealth_backend.Files.{starts}

-- The fields of `fileConfig()` and `appConfig()` that the path needs.
pub record FileConfig : Type 0 where
  pub is_local : Bool
  pub cdn_base_url : Option Text
  pub s3_public_url : Option Text
  pub cdn_include_bucket_in_path : Bool
  pub s3_bucket : Option Text
  pub backend_domain : Text

-- `path` and `relativePath`, which stays undefined for local files without a slash.
pub record FilePath : Type 0 where
  pub path : Text
  pub relative_path : Option Text

-- `a || b` on strings that may be undefined, and `''` at the end
abbrev pub or_empty : Option Text → Text
or_empty none = []
or_empty (some t) = t

abbrev pub first_truthy : Option Text → Option Text → Text
first_truthy none other = or_empty other
first_truthy (some s) other = if truthy s then s else or_empty other

-- `path.replace(/^\/+/, '')`
abbrev pub strip_leading : Text → Text
strip_leading [] = []
strip_leading (c ∷ t) = let rest = strip_leading t in if c == b'/' then rest else c ∷ t

-- `url.replace(/\/$/, '')`
abbrev pub strip_last : Text → Text
strip_last [] = []
strip_last (c ∷ []) = if c == b'/' then [] else c ∷ []
strip_last (c ∷ d ∷ t) = c ∷ strip_last (d ∷ t)

abbrev pub bucket_part : Bool → Option Text → Text
bucket_part false bucket = []
bucket_part true none = []
bucket_part true (some bucket) = if truthy bucket then b'/' ∷ bucket else []

-- What stands before the key in a public address, without the slash between them.
abbrev pub public_base : FileConfig → Text
public_base config =
    strip_last (first_truthy config.cdn_base_url config.s3_public_url)
    ++ bucket_part config.cdn_include_bucket_in_path config.s3_bucket

abbrev pub is_absolute : Text → Bool
is_absolute path = starts (codes "http://") path || starts (codes "https://") path

abbrev pub starts_with_slash : Text → Bool
starts_with_slash [] = false
starts_with_slash (c ∷ t) = c == b'/'

unfoldable pub update_path : FileConfig → Text → FilePath
update_path config path =
    if is_absolute path
    then record { path = path; relative_path = some path }
    else if starts_with_slash path
    then record {
      path = config.backend_domain ++ path;
      relative_path = some (config.backend_domain ++ path);
    }
    else if config.is_local
    then record { path = path; relative_path = none }
    else record {
      path = public_base config ++ (b'/' ∷ strip_leading path);
      relative_path = some (strip_leading path);
    }
