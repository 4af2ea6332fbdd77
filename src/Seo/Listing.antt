-- ===== src/Seo/Listing.antt =====
-- Which materials the list of SEO entries has.
use vethealth_backend.Base.{
  text_eq_refl, ◌+◌, ◌≡◌, refl, ◌∙◌, Bool, true, false, not, ◌&&◌, ◌||◌, List, [], ◌∷◌, ◌++◌, map,
  filter, any, length, length-append, Text, text_eq, text_eq_iff, arith, Bool-cases, inl, inr,
}
use vethealth_backend.Seo.Entries.{
  SeoEntityType, post, page, topic, Material, PostRow, TopicRow, SeoEntry, topic_entry, post_entry,
  page_entry, is_page_of, find_entries,
}

abbrev is_type : SeoEntityType → SeoEntityType → Bool
is_type post post = true
is_type page page = true
is_type topic topic = true
is_type _ _ = false

-- An entry of a type with an id.
abbrev pub lists : SeoEntityType → Text → SeoEntry → Bool
lists type id e = is_type type e.type && text_eq e.id id

any-append {ℓ} :
    {A : Type ℓ} (p : A → Bool) (xs ys : List A) → any p (xs ++ ys) ≡ (any p xs || any p ys)
any-append p [] ys = refl
any-append p (x ∷ xs) ys = ground (arith, any-append p xs ys)

any-map {ℓ κ} :
    {A : Type ℓ} {B : Type κ} (p : B → Bool) (q : A → Bool) (f : A → B) (xs : List A)
    → ((x : A) → p (f x) ≡ q x)
    → any p (map f xs) ≡ any q xs
any-map p q f [] h = refl
any-map p q f (x ∷ xs) h = rw (h x, any-map p q f xs h) refl

any-none {ℓ} : {A : Type ℓ} (xs : List A) → any (λ _. false) xs ≡ false
any-none [] = refl
any-none (x ∷ xs) = any-none xs

or_false : (b : Bool) → (b || false) ≡ b
or_false true = refl
or_false false = refl

-- The pages that a topic has are left out; the others are looked for by their ids.
any-filter-is_page_of :
    (id : Text) (topics : List TopicRow) (pages : List Material)
    → any (λ p. text_eq p.id id) (filter (λ p. not (any (is_page_of p.id) topics)) pages)
      ≡ (any (λ p. text_eq p.id id) pages && not (any (is_page_of id) topics))
any-filter-is_page_of id topics [] = refl
any-filter-is_page_of id topics (p ∷ pages) = elim (Bool-cases (text_eq p.id id)) [
  | inl e ↦
      rw (e, (text_eq_iff p.id id).0 e)
        (ground (arith, any-filter-is_page_of id topics pages, text_eq_refl id))
  | inr e ↦ ground (arith, any-filter-is_page_of id topics pages)
]

length-map {ℓ κ} :
    {A : Type ℓ} {B : Type κ} (f : A → B) (xs : List A) → length (map f xs) ≡ length xs
length-map f [] = refl
length-map f (x ∷ xs) = rw (length-map f xs) refl

-- A search in the list, by its three parts.
any-entries :
    (type : SeoEntityType) (id : Text) (topics : List TopicRow) (posts : List PostRow)
    (kept : List Material)
    → any (lists type id) (map topic_entry topics ++ (map post_entry posts ++ map page_entry kept))
      ≡ (any (lists type id) (map topic_entry topics)
          || (any (lists type id) (map post_entry posts)
              || any (lists type id) (map page_entry kept)))
any-entries type id topics posts kept =
    any-append (lists type id) (map topic_entry topics) _
    ∙ rw (any-append (lists type id) (map post_entry posts) (map page_entry kept)) refl

-- The list has each topic and each post that is stored, and of the pages those that no topic has;
-- it has as many entries as there are such materials.
pub find_entries_complete :
    (posts : List PostRow) (pages : List Material) (topics : List TopicRow) (id : Text)
    → let entries = find_entries posts pages topics in
      (any (lists topic id) entries ≡ any (λ t. text_eq t.material.id id) topics)
      × (any (lists post id) entries ≡ any (λ p. text_eq p.material.id id) posts)
      × (any (lists page id) entries
          ≡ (any (λ p. text_eq p.id id) pages && not (any (is_page_of id) topics)))
      × (length entries
          ≡ length topics
            + (length posts + length (filter (λ p. not (any (is_page_of p.id) topics)) pages)))
unfolding find_entries
find_entries_complete posts pages topics id =
    let kept = filter (λ p. not (any (is_page_of p.id) topics)) pages in
    (
      any-entries topic id topics posts kept
          ∙ rw
              (
                any-map (lists topic id) (λ t. text_eq t.material.id id) topic_entry topics
                    (λ t. refl),
                any-map (lists topic id) (λ p. false) post_entry posts (λ p. refl),
                any-map (lists topic id) (λ p. false) page_entry kept (λ p. refl),
                any-none posts,
                any-none kept,
              )
              (or_false _),
      any-entries post id topics posts kept
          ∙ rw
              (
                any-map (lists post id) (λ t. false) topic_entry topics (λ t. refl),
                any-map (lists post id) (λ p. text_eq p.material.id id) post_entry posts
                    (λ p. refl),
                any-map (lists post id) (λ p. false) page_entry kept (λ p. refl),
                any-none topics,
                any-none kept,
              )
              (or_false _),
      any-entries page id topics posts kept
          ∙ rw
              (
                any-map (lists page id) (λ t. false) topic_entry topics (λ t. refl),
                any-map (lists page id) (λ p. false) post_entry posts (λ p. refl),
                any-map (lists page id) (λ p. text_eq p.id id) page_entry kept (λ p. refl),
                any-none topics,
                any-none posts,
              )
              (any-filter-is_page_of id topics pages),
      length-append (map topic_entry topics) _
          ∙ rw
              (
                length-append (map post_entry posts) (map page_entry kept),
                length-map topic_entry topics,
                length-map post_entry posts,
                length-map page_entry kept,
              )
              refl,
    )
