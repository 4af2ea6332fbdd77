-- ===== src/Seo/Tests.antt =====
-- Two materials, one of which has metadata.
mod Generation
use vethealth_backend.Base.{
  ◌≡◌, refl, true, false, none, some, List, [], ◌∷◌, Text, codes, text_eq, split, is_space,
}
use vethealth_backend.Repository.{Repository}
use vethealth_backend.Repository.Memory.{memory}
use vethealth_backend.Context.{is_heading}
use vethealth_backend.Seo.{
  meta_title, SeoFieldValues, Metadata, SeoTarget, has_id, fits, target_has_id, Tables, update,
}
use vethealth_backend.Seo.Review.{
  wrong_length, markup, review_seo_metadata, seo_metadata_needs_correction,
}

tests : Unit {0}
unfolding update review_seo_metadata seo_metadata_needs_correction is_heading codes text_eq split
    is_space
tests = tt

abbrev metadata : Repository Metadata Text (List Metadata) fits has_id
metadata = memory fits has_id

abbrev targets : Repository SeoTarget Text (List SeoTarget) target_has_id target_has_id
targets = memory target_has_id target_has_id

abbrev titled : Text → SeoFieldValues
titled t meta_title = some t
titled t field = none

abbrev row : Metadata
row = record { id = 5 ∷ []; fields = titled (codes "Cats"); rest = 7 ∷ [] }

abbrev page : SeoTarget
page = record { id = 1 ∷ []; metadata = some (5 ∷ []) }

abbrev post : SeoTarget
post = record { id = 2 ∷ []; metadata = none }

abbrev tables : Tables (List Metadata) (List SeoTarget)
tables = record { metadata = row ∷ []; targets = page ∷ post ∷ [] }

update_tests :
    ((update metadata targets (2 ∷ []) (6 ∷ []) (titled (codes " Dogs ")) tables).1.targets
      ≡ page ∷ record { id = 2 ∷ []; metadata = some (6 ∷ []) } ∷ [])
    × (review_seo_metadata (λ t. t) (titled (codes "<b>"))
        ≡ wrong_length meta_title 3 40 60 ∷ markup meta_title ∷ [])
    × (seo_metadata_needs_correction (titled (codes "Cats")) ≡ false)
    × (seo_metadata_needs_correction (titled (codes "**Cats")) ≡ true)
unfolding tests
update_tests = (refl, refl, refl, refl)

-- Forty letters
abbrev title : Text
title = codes "abcdefghijklmnopqrstuvwxyzabcdefghijklmn"
