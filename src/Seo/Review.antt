-- ===== src/Seo/Review.antt =====
-- modules/ai/tasks/seo-metadata.task.ts: the review of generated fields, and which of its defects
-- are worth a second call.
use vethealth_backend.Base.{
  ℕ, Bool, true, false, not, ◌&&◌, ◌||◌, Option, none, some, List, [], ◌∷◌, ◌++◌, length, filter,
  any, map, Text, text_eq, truthy, split, trim, ltb, leb, ◌==◌, if◌then◌else◌,
}
use vethealth_backend.Context.{is_heading}
use vethealth_backend.Seo.{
  SeoField, meta_title, meta_description, meta_keywords, og_title, og_description, SeoFieldValues,
}

-- The warnings: a length and its range, the language, markup, and the number of phrases.
pub data Warning : Type 0 where
  wrong_length : SeoField → (length low high : ℕ) → Warning
  language markup : SeoField → Warning
  phrases : Warning

-- `LENGTH_RANGES`
abbrev pub length_range : SeoField → Option (ℕ × ℕ)
length_range meta_title = some (40, 60)
length_range meta_description = some (120, 160)
length_range og_title = some (1, 60)
length_range og_description = some (1, 200)
length_range meta_keywords = none

-- `[а-яіїєґ]` without regard to case, with the old letter forms whose capitals are in the class
abbrev is_ukrainian : ℕ → Bool
is_ukrainian c =
    (leb 1040 c && leb c 1103)
    || (c == 1110
        || (c == 1030
            || (c == 1111
                || (c == 1031
                    || (c == 1108
                        || (c == 1028
                            || (c == 1169 || (c == 1168 || (leb 7296 c && leb c 7302)))))))))

abbrev is_description : SeoField → Bool
is_description meta_description = true
is_description og_description = true
is_description _ = false

-- `NOT_UKRAINIAN`
abbrev pub not_ukrainian : SeoField → Text → Bool
not_ukrainian field value = is_description field && not (any is_ukrainian value)

abbrev is_latin : ℕ → Bool
is_latin c = (leb 65 c && leb c 90) || (leb 97 c && leb c 122)

abbrev tag_name : Text → Bool
tag_name [] = false
tag_name (c ∷ t) = is_latin c && any (λ d. d == b'>') t

-- `/<\/?[a-z][^>]*>/i`, here
abbrev tag_here : Text → Bool
tag_here (first ∷ c ∷ t) = first == b'<' && (tag_name (c ∷ t) || (c == b'/' && tag_name t))
tag_here _ = false

abbrev stars_here : Text → Bool
stars_here (a ∷ b ∷ t) = a == b'*' && b == b'*'
stars_here _ = false

abbrev ends_line : ℕ → Bool
ends_line c = c == 10 || (c == 13 || (c == 8232 || c == 8233))

-- A tag, two stars, or a heading where a line starts, from here on
abbrev markup_from : (line_start : Bool) → Text → Bool
markup_from b [] = false
markup_from b (c ∷ t) =
    tag_here (c ∷ t)
    || (stars_here (c ∷ t) || ((b && is_heading (c ∷ t)) || markup_from (ends_line c) t))

-- `MARKUP`
abbrev pub has_markup : Text → Bool
has_markup value = markup_from true value

abbrev pub too_long : SeoField → Text → Bool
too_long field value = elim (length_range field) [
  | none ↦ false
  | some (low, high) ↦ ltb high (length value)
]

-- `phrases` of the keywords
abbrev phrases_of : Text → List Text
phrases_of value = filter truthy (map trim (split b',' value))

abbrev distinct : List Text → Bool
distinct [] = true
distinct (t ∷ ts) = not (any (text_eq t) ts) && distinct ts

-- The check of the keywords; `lower` is `toLowerCase`.
abbrev pub phrase_warnings : (lower : Text → Text) → SeoField → Text → List Warning
phrase_warnings lower meta_keywords value =
    let ps = phrases_of value in
    if ltb (length ps) 4 || (ltb 8 (length ps) || not (distinct (map lower ps)))
    then phrases ∷ []
    else []
phrase_warnings lower field value = []

abbrev pub length_warnings : SeoField → Text → List Warning
length_warnings field value = elim (length_range field) [
  | none ↦ []
  | some (low, high) ↦
      if ltb (length value) low || ltb high (length value)
      then wrong_length field (length value) low high ∷ []
      else []
]

abbrev pub is_keywords : SeoField → Bool
is_keywords meta_keywords = true
is_keywords _ = false

-- The warnings of one field with a value
abbrev pub value_warnings : (Text → Text) → SeoField → Text → List Warning
value_warnings lower field value =
    if is_keywords field && not (truthy value)
    then []
    else length_warnings field value
      ++ ((if not_ukrainian field value then language field ∷ [] else [])
          ++ ((if has_markup value then markup field ∷ [] else [])
              ++ phrase_warnings lower field value))

-- `SEO_FIELDS`
abbrev pub seo_fields : List SeoField
seo_fields = meta_title ∷ meta_description ∷ meta_keywords ∷ og_title ∷ og_description ∷ []

abbrev pub field_warnings : (Text → Text) → SeoFieldValues → SeoField → List Warning
field_warnings lower result field = elim (result field) [
  | none ↦ []
  | some value ↦ value_warnings lower field value
]

abbrev pub warnings_from : (Text → Text) → SeoFieldValues → List SeoField → List Warning
warnings_from lower result [] = []
warnings_from lower result (f ∷ fs) = field_warnings lower result f ++ warnings_from lower result fs

-- `reviewSeoMetadata`
unfoldable pub review_seo_metadata : (Text → Text) → SeoFieldValues → List Warning
review_seo_metadata lower result = warnings_from lower result seo_fields

abbrev pub is_defect : SeoFieldValues → SeoField → Bool
is_defect result field = elim (result field) [
  | none ↦ false
  | some value ↦
      truthy value && (too_long field value || (has_markup value || not_ukrainian field value))
]

-- `seoMetadataNeedsCorrection`
unfoldable pub seo_metadata_needs_correction : SeoFieldValues → Bool
seo_metadata_needs_correction result = any (is_defect result) seo_fields
