-- ===== src/Scripts/Tests.antt =====
-- A bucket whose objects are all the first bytes of a JPEG, under types of their own.
mod Migration
mod Copies
use vethealth_backend.Base.{
  ℕ, ◌≡◌, ◌≢◌, refl, ap, sym, ◌∙◌, true, false, none, some, List, [], ◌∷◌, Text, codes, text_eq,
  text_eq_refl, text_eq_iff, split, is_space, if◌then◌else◌, Bool-cases, inl, inr,
}
use mathlib.Core.Option
use vethealth_backend.Files.{sniff_image_type}
use vethealth_backend.Scripts.ContentTypes.{
  Bucket, no_stats, sniffed_type, is_equivalent, inspect_object, inspect_all, list_all_objects,
}
use vethealth_backend.Scripts.Repairs.{sniffed_type-eq-sniff_image_type}
use vethealth_backend.Files.Paths.{FileConfig, update_path}
use vethealth_backend.Scripts.References.{key_here, strip_uploads_prefix, normalize_file_key}
use vethealth_backend.Scripts.Keys.{normalize_file_key-update_path}
use vethealth_backend.Scripts.Runs.{inspect_all_twice}

key_tests : Unit {0}
unfolding normalize_file_key strip_uploads_prefix key_here update_path codes is_space
key_tests = tt

tests : Unit {0}
unfolding sniffed_type sniff_image_type is_equivalent inspect_object inspect_all codes text_eq split
    is_space list_all_objects
tests = tt

abbrev Types : Type 0
Types = Text → Text

abbrev jpeg : List ℕ
jpeg = 255 ∷ 216 ∷ 255 ∷ 0 ∷ 0 ∷ 0 ∷ 0 ∷ 0 ∷ 0 ∷ 0 ∷ 0 ∷ 0 ∷ []

abbrev set_type : Text → Text → Types → Types
set_type k t w j = if text_eq j k then t else w j

set_type_same : (k t : Text) (w : Types) → set_type k t w k ≡ t
set_type_same k t w = rw (text_eq_refl k) refl

set_type_other : (k j t : Text) (w : Types) → j ≢ k → set_type k t w j ≡ w j
set_type_other k j t w ne = elim (Bool-cases (text_eq j k)) [
  | inl e ↦ absurd (ne ((text_eq_iff j k).0 e))
  | inr e ↦ rw e refl
]

same_state : (v w : Types) → some v ≡ some w → v ≡ w
same_state v w e = ap (λ o. elim o [ none ↦ v | some f ↦ f ]) e

bucket : Bucket Types
bucket = record {
  head_object = λ k w. some (w k);
  read_head = λ k w. some jpeg;
  copy_object = λ k t w. some (set_type k t w);
  head_object-copy = λ k t w w' c s h.
      let e : w' k ≡ s = cc h in
      sym e ∙ sym (ap (λ f. f k) (same_state (set_type k t w) w' c)) ∙ set_type_same k t w;
  head_object-other = λ k j t w w' c ne.
      ap some (sym (ap (λ f. f j) (same_state (set_type k t w) w' c)) ∙ set_type_other k j t w ne);
  read_head-copy = λ k j t w w' c. refl;
}

abbrev mislabelled : Types
mislabelled k = codes "image/png"

inspect_all_twice_example :
    let w' = (inspect_all bucket (λ t. t) (λ b. []) true (codes "a" ∷ []) no_stats mislabelled).1 in
    ((inspect_all bucket (λ t. t) (λ b. []) false (codes "a" ∷ []) no_stats w').0.fixed ≡ 0)
    × ((inspect_all bucket (λ t. t) (λ b. []) false (codes "a" ∷ []) no_stats w').1 ≡ w')
unfolding tests bucket
inspect_all_twice_example =
    inspect_all_twice bucket (λ t. t) (λ b. []) false (codes "a" ∷ []) mislabelled refl

repair_tests :
    (inspect_all bucket (λ t. t) (λ b. []) true (codes "a" ∷ []) no_stats mislabelled).0
    ≡ record no_stats { total = 1; fixed = 1 }
unfolding tests bucket
repair_tests = refl

abbrev config : FileConfig
config = record {
  is_local = false;
  cdn_base_url = some (codes "https://cdn.site/");
  s3_public_url = none;
  cdn_include_bucket_in_path = true;
  s3_bucket = some (codes "b");
  backend_domain = codes "https://site";
}

abbrev cat_key : Text
cat_key = codes "images/topics/cat.svg"

path_tests :
    ((update_path config cat_key).path ≡ codes "https://cdn.site/b/images/topics/cat.svg")
    × (normalize_file_key (codes "/uploads/images/topics/cat.svg") ≡ cat_key)
    × (normalize_file_key (codes "uploads/uploads/a") ≡ codes "uploads/a")
unfolding key_tests
path_tests = (refl, refl, refl)

sniffed_type-eq-sniff_image_type_example :
    sniffed_type (λ b. b) jpeg ≡ Option.map (λ i. i.mime_type) (sniff_image_type (λ b. b) jpeg)
sniffed_type-eq-sniff_image_type_example = sniffed_type-eq-sniff_image_type (λ b. b) jpeg
