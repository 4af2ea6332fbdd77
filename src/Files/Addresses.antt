-- ===== src/Files/Addresses.antt =====
-- The address of a loaded file, next to the one that the storage gives for its path.
use vethealth_backend.Base.{
  ◌≡◌, refl, ◌∙◌, true, false, Option, none, some, [], ◌∷◌, Text, truthy, ◌||◌, arith, Bool-cases,
  inl, inr,
}
use vethealth_backend.Files.Paths.{
  FileConfig, update_path, is_absolute, starts_with_slash, strip_last, strip_leading, bucket_part,
  first_truthy, or_empty,
}
use vethealth_backend.Files.Storages.{Variables, file_config, get_public_url, public_url}
use mathlib.Core.List.{append_assoc}

public_url-truthy :
    (cdn s3 : Option Text)
    → (truthy (or_empty s3) || truthy (or_empty cdn)) ≡ true
    → public_url cdn s3 ≡ some (first_truthy cdn s3)
public_url-truthy none none h = cc
public_url-truthy none (some s) h = refl
public_url-truthy (some []) none h = cc
public_url-truthy (some []) (some s) h = refl
public_url-truthy (some (c ∷ t)) s3 h = refl

-- A configuration that is accepted has an address, where files are not local.
pub file_config-truthy :
    (vars : Variables) (domain : Text) (config : FileConfig)
    → file_config vars domain ≡ some config
    → config.is_local ≡ false
    → (truthy (or_empty config.s3_public_url) || truthy (or_empty config.cdn_base_url)) ≡ true
unfolding file_config
file_config-truthy vars domain config e l = ground arith

local_url :
    (config : FileConfig) (path : Text)
    → config.is_local ≡ true
    → is_absolute path ≡ false
    → starts_with_slash path ≡ true
    → get_public_url config path ≡ some (update_path config path).path
unfolding get_public_url update_path
local_url config path l a s = ground arith

s3_url :
    (config : FileConfig) (path : Text)
    → config.is_local ≡ false
    → is_absolute path ≡ false
    → starts_with_slash path ≡ false
    → (truthy (or_empty config.s3_public_url) || truthy (or_empty config.cdn_base_url)) ≡ true
    → get_public_url config path ≡ some (update_path config path).path
unfolding get_public_url update_path
s3_url config path l a s t =
    let url = first_truthy config.cdn_base_url config.s3_public_url in
    let bucket = bucket_part config.cdn_include_bucket_in_path config.s3_bucket in
    ground (
      arith,
      public_url-truthy config.cdn_base_url config.s3_public_url t,
      append_assoc (strip_last url) bucket (b'/' ∷ strip_leading path),
    )

-- Where the configuration is accepted, the address of a loaded file is the public address that the
-- chosen storage gives for the stored path, which exists. Paths are as the program stores them:
-- from the root for local files and from no root for others, and they are no address already.
pub get_public_url-update_path :
    (vars : Variables) (domain : Text) (config : FileConfig) (path : Text)
    → file_config vars domain ≡ some config
    → is_absolute path ≡ false
    → starts_with_slash path ≡ config.is_local
    → get_public_url config path ≡ some (update_path config path).path
get_public_url-update_path vars domain config path e a s = elim (Bool-cases config.is_local) [
  | inl l ↦ local_url config path l a (s ∙ l)
  | inr l ↦ s3_url config path l a (s ∙ l) (file_config-truthy vars domain config e l)
]
