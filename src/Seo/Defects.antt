-- ===== src/Seo/Defects.antt =====
-- Which defects are worth a second call.
use vethealth_backend.Base.{
  ◌≡◌, refl, true, false, ◌||◌, List, [], ◌∷◌, ◌++◌, any, Text, truthy, arith, Option-cases, inl,
  inr, if◌then◌else◌,
}
use vethealth_backend.Seo.{SeoField, SeoFieldValues}
use vethealth_backend.Seo.Review.{
  Warning, language, markup, length_range, not_ukrainian, has_markup, too_long, phrase_warnings,
  length_warnings, value_warnings, seo_fields, field_warnings, warnings_from, is_defect,
  review_seo_metadata, seo_metadata_needs_correction,
}

behind_nil : (xs ys : List Warning) → xs ++ ys ≡ [] → ys ≡ []
behind_nil [] ys e = e
behind_nil (x ∷ xs) ys e = absurd (ground arith)

before_nil : (xs ys : List Warning) → xs ++ ys ≡ [] → xs ≡ []
before_nil [] ys e = refl
before_nil (x ∷ xs) ys e = absurd (ground arith)

length_silent :
    (field : SeoField) (value : Text)
    → length_warnings field value ≡ []
    → too_long field value ≡ false
length_silent field value e = elim (Option-cases (length_range field)) [
  | inl f ↦ ground arith
  | inr (range, f) ↦ ground arith
]

-- A value without warnings has no defect.
value_silent :
    (lower : Text → Text) (field : SeoField) (value : Text)
    → truthy value ≡ true
    → value_warnings lower field value ≡ []
    → (too_long field value || (has_markup value || not_ukrainian field value)) ≡ false
value_silent lower field value t e =
    let spoken : List Warning = if not_ukrainian field value then language field ∷ [] else [] in
    let marked : List Warning = if has_markup value then markup field ∷ [] else [] in
    let rest = phrase_warnings lower field value in
    let all : length_warnings field value ++ (spoken ++ (marked ++ rest)) ≡ [] = ground arith in
    let l = before_nil (length_warnings field value) (spoken ++ (marked ++ rest)) all in
    let more = behind_nil (length_warnings field value) (spoken ++ (marked ++ rest)) all in
    let s = before_nil spoken (marked ++ rest) more in
    let k = before_nil marked rest (behind_nil spoken (marked ++ rest) more) in
    ground (arith, length_silent field value l)

field_silent :
    (lower : Text → Text) (result : SeoFieldValues) (field : SeoField)
    → field_warnings lower result field ≡ []
    → is_defect result field ≡ false
field_silent lower result field e = elim (Option-cases (result field)) [
  | inl f ↦ ground arith
  | inr (value, f) ↦ ground (arith, value_silent lower field value)
]

fields_silent :
    (lower : Text → Text) (result : SeoFieldValues) (fields : List SeoField)
    → warnings_from lower result fields ≡ []
    → any (is_defect result) fields ≡ false
fields_silent lower result [] e = refl
fields_silent lower result (f ∷ fields) e = ground (
  arith,
  field_silent lower result f
      (before_nil (field_warnings lower result f) (warnings_from lower result fields) e),
  fields_silent lower result fields
      (behind_nil (field_warnings lower result f) (warnings_from lower result fields) e),
)

-- A result without warnings needs no correction: every defect that is worth a second call is among
-- the warnings too.
pub review_seo_metadata-nil :
    (lower : Text → Text) (result : SeoFieldValues)
    → review_seo_metadata lower result ≡ []
    → seo_metadata_needs_correction result ≡ false
unfolding review_seo_metadata seo_metadata_needs_correction
review_seo_metadata-nil lower result e = fields_silent lower result seo_fields e
