-- ===== src/Scripts/Origins.antt =====
-- References to an image, and what the migration makes of them.
use vethealth_backend.Base.{
  ℕ, ◌≡◌, ◌≢◌, ◌∙◌, refl, sym, ap, Bool, true, false, some, [], ◌∷◌, ◌++◌, Text, codes, ◌==◌,
  if◌then◌else◌, arith, all, is_space, Option-cases, inl, inr,
}
use mathlib.Core.List.{append-nil}
use vethealth_backend.Files.Paths.{FileConfig, public_base, update_path}
use vethealth_backend.Files.Storages
use vethealth_backend.Files.Storages.{file_config}
use vethealth_backend.Scripts.References.{is_allowed, key_here, starts_in}
use vethealth_backend.Scripts.Keys.{allowed_part-all, key_here-first, public_path, key_here-ne_nil}
use vethealth_backend.Scripts.Rewrites.{
  scheme_rest, first_key, match_here, rewrite_from, rewrite_image_refs,
}
use vethealth_backend.Scripts.Rewrites.Starts.{scheme_rest-starts}
use vethealth_backend.Scripts.Migration.{derive_public_base}
use vethealth_backend.Scripts.Addresses.{variables_of, IsPlainly, derive_public_base-eq-public_base}

-- What stands before the key: nothing, a slash, or an address, which may have lost its colon.
pub data Origin : Type 0 where
  bare slash : Origin
  address : (secure colon : Bool) → Text → Origin

abbrev pub origin_text : Origin → Text
origin_text bare = []
origin_text slash = b'/' ∷ []
origin_text (address secure colon junk) =
    codes "http"
    ++ ((if secure then codes "s" else [])
        ++ ((if colon then codes ":" else []) ++ (codes "//" ++ junk)))

-- Only characters that references may have, and no key before this one.
abbrev pub IsOrigin : Origin → Text → Type 0
IsOrigin bare key = Unit
IsOrigin slash key = Unit
IsOrigin (address secure colon junk) key =
    (all is_allowed junk ≡ true) × (starts_in junk key ≡ false)

first_key-key :
    (key : Text) → key_here key ≡ true → all is_allowed key ≡ true → first_key key ≡ some key
first_key-key [] h a = absurd (key_here-ne_nil h)
first_key-key (c ∷ t) h a = rw (h, allowed_part-all (c ∷ t) a) refl

first_key-junk :
    (junk key : Text)
    → all is_allowed junk ≡ true
    → starts_in junk key ≡ false
    → first_key (junk ++ key) ≡ first_key key
first_key-junk [] key a n = refl
first_key-junk (c ∷ junk) key a n = ground (arith, first_key-junk junk key)

match_here-key :
    (c : ℕ) (t : Text)
    → key_here (c ∷ t) ≡ true
    → all is_allowed (c ∷ t) ≡ true
    → match_here (c ∷ t) ≡ some (c ∷ t)
unfolding match_here codes
match_here-key c t h a = elim (Option-cases (scheme_rest (c ∷ t))) [
  | inl e ↦
      let no_slash : (c == 47) ≡ false = ground (arith, key_here-first c t h) in
      rw (e, no_slash, h, allowed_part-all (c ∷ t) a) refl
  | inr (u, e) ↦ absurd (ground (arith, key_here-first c t h, scheme_rest-starts c t u e))
]

-- A reference is a match, with its key.
match_here-origin :
    (o : Origin) (key : Text)
    → IsOrigin o key
    → key_here key ≡ true
    → all is_allowed key ≡ true
    → match_here (origin_text o ++ key) ≡ some key
unfolding match_here scheme_rest codes is_space
match_here-origin bare [] i h a = absurd (key_here-ne_nil h)
match_here-origin bare (c ∷ t) i h a = match_here-key c t h a
match_here-origin slash key i h a = rw (h, allowed_part-all key a) refl
match_here-origin (address true true junk) key (b, n) h a =
    rw (first_key-junk junk key b n, first_key-key key h a) refl
match_here-origin (address true false junk) key (b, n) h a =
    rw (first_key-junk junk key b n, first_key-key key h a) refl
match_here-origin (address false true junk) key (b, n) h a =
    rw (first_key-junk junk key b n, first_key-key key h a) refl
match_here-origin (address false false junk) key (b, n) h a =
    rw (first_key-junk junk key b n, first_key-key key h a) refl

all-append :
    (s t : Text)
    → all is_allowed s ≡ true
    → all is_allowed t ≡ true
    → all is_allowed (s ++ t) ≡ true
all-append [] t a b = b
all-append (c ∷ s) t a b = ground (arith, all-append s t)

origin_text-allowed :
    (o : Origin) (key : Text) → IsOrigin o key → all is_allowed (origin_text o) ≡ true
unfolding codes is_space
origin_text-allowed bare key i = refl
origin_text-allowed slash key i = refl
origin_text-allowed (address true true junk) key (a, n) = a
origin_text-allowed (address true false junk) key (a, n) = a
origin_text-allowed (address false true junk) key (a, n) = a
origin_text-allowed (address false false junk) key (a, n) = a

rest-allowed : (base t : Text) → all is_allowed t ≡ true → (rewrite_from base t).1 ≡ []
rest-allowed base [] a = refl
rest-allowed base (c ∷ t) a = ground (arith, rest-allowed base t)

match_here_nil : (k : Text) → match_here [] ≢ some k
unfolding match_here scheme_rest key_here codes
match_here_nil k h = cc

-- A text that is one match
rewrite_image_refs-match :
    (base t k : Text)
    → match_here t ≡ some k
    → all is_allowed t ≡ true
    → rewrite_image_refs t base ≡ base ++ (b'/' ∷ k)
unfolding rewrite_image_refs
rewrite_image_refs-match base [] k m a = absurd (match_here_nil k m)
rewrite_image_refs-match base (c ∷ t) k m a =
    let rest = rest-allowed base t (ground arith) in
    rw (m, rest) (ap (λ u. base ++ (b'/' ∷ u)) (append-nil k))

rewritten :
    (v : Storages.Variables) (domain : Text) (config : FileConfig) (origin : Origin) (key : Text)
    → file_config v domain ≡ some config
    → config.is_local ≡ false
    → IsPlainly v
    → IsOrigin origin key
    → key_here key ≡ true
    → all is_allowed key ≡ true
    → rewrite_image_refs (origin_text origin ++ key) (derive_public_base (variables_of v))
      ≡ (update_path config key).path
rewritten v domain config origin key e l plain i h a =
    rw (derive_public_base-eq-public_base v domain config e l plain) (
      rewrite_image_refs-match (public_base config) (origin_text origin ++ key) key
        (match_here-origin origin key i h a)
        (all-append (origin_text origin) key (origin_text-allowed origin key i) a)
      ∙ sym (public_path config key l h))

-- In front of the slash before the key, the old folder is no part of a match.
rewrite_image_refs-uploads :
    (base key : Text)
    → rewrite_image_refs (codes "/uploads/" ++ key) base
      ≡ codes "/uploads" ++ rewrite_image_refs (b'/' ∷ key) base
unfolding rewrite_image_refs match_here scheme_rest key_here codes is_space
rewrite_image_refs-uploads base key = refl

-- A reference to an image is made the address that the service gives for the file with its key,
-- where nothing, a slash or an address stands before the key; the address may lack the colon of its
-- scheme, and may hold another. Where the old folder stands before it, as in `/uploads/images/...`,
-- `/uploads` stays in front of the new address. The service accepts the environment, for files that
-- are not local; addresses in it end in one slash at most, and its flag is written in small letters.
-- Key and address have only characters that references may have, and no key starts before this one.
pub rewrite_image_refs-update_path :
    (v : Storages.Variables) (domain : Text) (config : FileConfig) (origin : Origin) (key : Text)
    → file_config v domain ≡ some config
    → config.is_local ≡ false
    → IsPlainly v
    → IsOrigin origin key
    → key_here key ≡ true
    → all is_allowed key ≡ true
    → (rewrite_image_refs (origin_text origin ++ key) (derive_public_base (variables_of v))
        ≡ (update_path config key).path)
      × (rewrite_image_refs (codes "/uploads/" ++ key) (derive_public_base (variables_of v))
          ≡ codes "/uploads" ++ (update_path config key).path)
rewrite_image_refs-update_path v domain config origin key e l plain i h a = (
  rewritten v domain config origin key e l plain i h a,
  rewrite_image_refs-uploads (derive_public_base (variables_of v)) key
      ∙ ap (λ t. codes "/uploads" ++ t) (rewritten v domain config slash key e l plain tt h a),
)
