-- ===== src/Scripts/Addresses.antt =====
-- The addresses that the migration writes, next to those of the service.
use vethealth_backend.Base.{
  ◌≡◌, ◌≢◌, ◌⊎◌, ◌∙◌, refl, sym, ap, subst, Bool, true, false, not, ◌&&◌, ◌||◌, Option, none, some,
  [], ◌∷◌, ◌++◌, Text, codes, truthy, text_eq, ◌==◌, if◌then◌else◌, arith, Bool-cases, inl, inr,
}
use vethealth_backend.Files.{is_word}
use vethealth_backend.Search.{includes}
use vethealth_backend.Files.Storages
use vethealth_backend.Files.Storages.{file_config, settings, is_local_driver, is_r2}
use vethealth_backend.Files.Addresses.{file_config-truthy}
use vethealth_backend.Files.Paths.{FileConfig, public_base, strip_last, first_truthy, or_empty}
use vethealth_backend.Scripts.Migration.{Variables, derive_public_base, strip_trailing, first_set}

abbrev ends_in_slash : Text → Bool
ends_in_slash [] = false
ends_in_slash (c ∷ []) = c == b'/'
ends_in_slash (c ∷ d ∷ t) = ends_in_slash (d ∷ t)

-- A variable that is not set, is empty, or is an address with one slash at its end at most.
abbrev pub IsPlain : Option Text → Type 0
IsPlain none = Unit
IsPlain (some t) =
    (t ≡ [])
    ⊎ ((s : Text) × (truthy s ≡ true)
        × (ends_in_slash s ≡ false)
        × ((t ≡ s) ⊎ (t ≡ s ++ (b'/' ∷ []))))

strip_trailing-plain : (s : Text) → ends_in_slash s ≡ false → strip_trailing s ≡ s
strip_trailing-plain [] h = refl
strip_trailing-plain (c ∷ []) h = ground arith
strip_trailing-plain (c ∷ d ∷ t) h = rw (strip_trailing-plain (d ∷ t) h) (ground arith)

strip_last-plain : (s : Text) → ends_in_slash s ≡ false → strip_last s ≡ s
strip_last-plain [] h = refl
strip_last-plain (c ∷ []) h = ground arith
strip_last-plain (c ∷ d ∷ t) h = rw (strip_last-plain (d ∷ t) h) refl

strip_trailing-slash : (s : Text) → ends_in_slash s ≡ false → strip_trailing (s ++ (b'/' ∷ [])) ≡ s
strip_trailing-slash [] h = refl
strip_trailing-slash (c ∷ []) h = ground arith
strip_trailing-slash (c ∷ d ∷ t) h = rw (strip_trailing-slash (d ∷ t) h) (ground arith)

strip_last-slash : (s : Text) → ends_in_slash s ≡ false → strip_last (s ++ (b'/' ∷ [])) ≡ s
strip_last-slash [] h = refl
strip_last-slash (c ∷ []) h = refl
strip_last-slash (c ∷ d ∷ t) h = rw (strip_last-slash (d ∷ t) h) refl

truthy-append : (s t : Text) → truthy s ≡ true → truthy s ≡ truthy (s ++ t)
truthy-append [] t h = cc
truthy-append (c ∷ s) t h = refl

-- Both ways to strip a variable agree, and leave something of a variable that has something.
plain-stripped :
    (o : Option Text)
    → IsPlain o
    → (strip_trailing (or_empty o) ≡ strip_last (or_empty o))
      × (truthy (strip_last (or_empty o)) ≡ truthy (or_empty o))
plain-stripped none h = (refl, refl)
plain-stripped (some t) (inl e) = rw e (refl, refl)
plain-stripped (some t) (inr (s, n, h, inl e)) =
    rw (e, strip_trailing-plain s h, strip_last-plain s h) (refl, refl)
plain-stripped (some t) (inr (s, n, h, inr e)) =
    rw (e, strip_trailing-slash s h, strip_last-slash s h) (refl, truthy-append s (b'/' ∷ []) n)

first_set-stripped :
    (cdn s3 : Option Text)
    → IsPlain cdn
    → IsPlain s3
    → first_set (strip_trailing (or_empty cdn)) (strip_trailing (or_empty s3))
      ≡ strip_last (first_truthy cdn s3)
first_set-stripped none s3 c p = (plain-stripped s3 p).0
first_set-stripped (some t) s3 c p =
    let (e, n) = plain-stripped (some t) c in
    elim (Bool-cases (truthy t)) [
      | inl h ↦ rw (e, n, h) refl
      | inr h ↦ rw (e, n, h) (plain-stripped s3 p).0
    ]

-- The environment of the service and of the script
abbrev pub variables_of : Storages.Variables → Variables
variables_of v = record {
  file_cdn_base_url = v.file_cdn_base_url;
  file_s3_public_url = v.file_s3_public_url;
  file_cdn_include_bucket_in_path = v.file_cdn_include_bucket_in_path;
  file_s3_bucket = v.file_s3_bucket;
}

-- The addresses are set with one slash at their end at most, and the flag in small letters.
pub record IsPlainly (v : Storages.Variables) : Type 0 where
  pub cdn : IsPlain v.file_cdn_base_url
  pub s3 : IsPlain v.file_s3_public_url
  pub flag :
      is_word (codes "true") (or_empty v.file_cdn_include_bucket_in_path)
      ≡ text_eq (or_empty v.file_cdn_include_bucket_in_path) (codes "true")

settings_of : FileConfig → Option FileConfig → FileConfig
settings_of d none = d
settings_of d (some config) = config

none-ne_some : {A : Type 0} {a : A} → none ≢ some a
none-ne_some e = cc

if_none-some :
    {A : Type 0} (b : Bool) (o : Option A) (a : A) → (if b then none else o) ≡ some a → o ≡ some a
if_none-some true o a h = absurd (none-ne_some h)
if_none-some false o a h = h

file_config-settings :
    (v : Storages.Variables) (domain : Text) (config : FileConfig)
    → file_config v domain ≡ some config
    → settings v domain ≡ config
unfolding file_config settings_of
file_config-settings v domain config e =
    let s3 = or_empty v.file_s3_public_url in
    let unset = not (truthy s3) && not (truthy (or_empty v.file_cdn_base_url)) in
    let private = is_r2 v.file_storage_driver && includes (codes "r2.cloudflarestorage.com") s3 in
    let valid = if_none-some (not v.is_valid) _ config e in
    let set = if_none-some (not (is_local_driver v.file_storage_driver) && unset) _ config valid in
    ap (settings_of config) (if_none-some private (some (settings v domain)) config set)

first-true : (a : Bool) → (a || false) ≡ true → a ≡ true
first-true true h = refl
first-true false h = h

stripped-truthy :
    (cdn s3 : Option Text)
    → IsPlain cdn
    → IsPlain s3
    → (truthy (or_empty s3) || truthy (or_empty cdn)) ≡ true
    → truthy (strip_last (first_truthy cdn s3)) ≡ true
stripped-truthy none s3 c p h = (plain-stripped s3 p).1 ∙ first-true _ h
stripped-truthy (some t) s3 c p h = elim (Bool-cases (truthy t)) [
  | inl e ↦ rw e ((plain-stripped (some t) c).1 ∙ e)
  | inr e ↦ rw e ((plain-stripped s3 p).1 ∙ first-true _ (rw e at h))
]

truthy_base :
    (v : Storages.Variables) (domain : Text) (config : FileConfig)
    → file_config v domain ≡ some config
    → config.is_local ≡ false
    → IsPlainly v
    → truthy (strip_last (first_truthy v.file_cdn_base_url v.file_s3_public_url)) ≡ true
truthy_base v domain config e l h =
    let same = file_config-settings v domain config e in
    stripped-truthy v.file_cdn_base_url v.file_s3_public_url h.cdn h.s3 (
      subst (λ c. (truthy (or_empty c.s3_public_url) || truthy (or_empty c.cdn_base_url)) ≡ true)
        (sym same) (file_config-truthy v domain config e l))

-- The base that the script derives is the one of the service, for an environment that the service
-- accepts for files that are not local.
pub derive_public_base-eq-public_base :
    (v : Storages.Variables) (domain : Text) (config : FileConfig)
    → file_config v domain ≡ some config
    → config.is_local ≡ false
    → IsPlainly v
    → derive_public_base (variables_of v) ≡ public_base config
unfolding derive_public_base
derive_public_base-eq-public_base v domain config e l h =
    let same = first_set-stripped v.file_cdn_base_url v.file_s3_public_url h.cdn h.s3 in
    rw (same, h.flag, truthy_base v domain config e l h)
      (ap public_base (file_config-settings v domain config e))
