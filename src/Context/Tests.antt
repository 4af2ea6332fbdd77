-- ===== src/Context/Tests.antt =====
-- Small documents and texts.
use vethealth_backend.Base.{
  ◌≡◌, ◌≤◌, ◌<◌, refl, ◌↔◌, true, false, [], ◌∷◌, ◌++◌, Text, codes, text_eq, length, trim,
  is_space, split, join,
}
use vethealth_backend.Context.{prepare_seo_context, cut, is_heading}
use vethealth_backend.Context.Bounds.{prepare_seo_context_bounded}
use vethealth_backend.Context.Lexical.{
  Json, string, array, object, no_items, item, no_fields, field, lexical_text,
}

tests : Unit {0}
unfolding prepare_seo_context cut is_heading lexical_text is_space codes text_eq split join
tests = tt

abbrev word : Text → Json
word t =
    object
      (field (codes "type") (string (codes "text")) (field (codes "text") (string t) no_fields))

-- A heading "Cats", and a paragraph with "tick" in bold and "s" behind it.
abbrev page : Json
page = object (
    field (codes "root")
      (object (
        field (codes "children")
          (array (
            item
              (object (
                field (codes "type") (string (codes "heading")) (
                  field (codes "children") (array (item (word (codes "Cats")) no_items))
                    no_fields)))
              (item
                (object (
                  field (codes "children")
                    (array (item (word (codes "tick")) (item (word (codes "s ")) no_items)))
                    no_fields))
                no_items)))
          no_fields))
      no_fields)

document_tests :
    (lexical_text false (λ x. []) page ≡ codes "Cats ticks")
    × (lexical_text true (λ x. []) page ≡ codes "## Cats" ++ (10 ∷ codes "ticks"))
    × (cut (codes "a" ++ (10 ∷ codes "# b")) ≡ (codes "a" ++ (10 ∷ [])) ∷ codes "# b" ∷ [])
    × ((prepare_seo_context (codes " short ")).text ≡ codes "short")
unfolding tests
document_tests = (refl, refl, refl, refl)

prepare_seo_context_bounded_example :
    (length (prepare_seo_context (codes "short")).text ≤ 12000)
    × (((prepare_seo_context (codes "short")).source_truncated ≡ true)
        ↔ (12000 < length (trim (codes "short"))))
prepare_seo_context_bounded_example = prepare_seo_context_bounded (codes "short")
