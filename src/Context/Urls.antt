-- ===== src/Context/Urls.antt =====
-- The texts under keys for addresses and files do not show in the text of a page.
use mathlib.Core.Option
use vethealth_backend.Base.{
  ◌≡◌, refl, ap, ◌∙◌, Bool, Option, none, some, [], Text, codes, text_eq, text_eq_iff, arith,
  if◌then◌else◌, Bool-cases, Option-cases, inl, inr,
}
use vethealth_backend.Context.Lexical.{
  Json, null, boolean, number, string, array, object, Items, no_items, item, Fields, no_fields,
  field, get,
}
use vethealth_backend.Context.Pages.{
  is_urlish, is_skipped, collect, collect_items, collect_fields, block_chunks, chunks_of, blocks_of,
  page_text, joined,
}

-- Every text under a key for addresses and files, taken out.
abbrev mutual
  pub blank : Option Text → Json → Json
  blank key (string value) = if is_skipped key then string [] else string value
  blank key (array items) = array (blank_items items)
  blank key (object entries) = object (blank_fields entries)
  blank key null = null
  blank key (boolean b) = boolean b
  blank key (number b) = number b

  pub blank_items : Items → Items
  blank_items no_items = no_items
  blank_items (item value items) = item (blank none value) (blank_items items)

  pub blank_fields : Fields → Fields
  blank_fields no_fields = no_fields
  blank_fields (field key value entries) = field key (blank (some key) value) (blank_fields entries)

module _ (parse : Text → Option Json) (string_of : Json → Text) (structured : Bool) where
  mutual
    collect-blank :
        (key : Option Text) (value : Json)
        → collect parse string_of structured key (blank key value)
          ≡ collect parse string_of structured key value
    collect-blank key (string value) = ground arith
    collect-blank key (array items) = collect_items-blank items
    collect-blank key (object entries) = collect_fields-blank entries
    collect-blank key null = refl
    collect-blank key (boolean b) = refl
    collect-blank key (number b) = refl

    collect_items-blank :
        (items : Items)
        → collect_items parse string_of structured (blank_items items)
          ≡ collect_items parse string_of structured items
    collect_items-blank no_items = refl
    collect_items-blank (item value items) =
        rw (collect-blank none value, collect_items-blank items) refl

    collect_fields-blank :
        (entries : Fields)
        → collect_fields parse string_of structured (blank_fields entries)
          ≡ collect_fields parse string_of structured entries
    collect_fields-blank no_fields = refl
    collect_fields-blank (field key value entries) =
        rw (collect-blank (some key) value, collect_fields-blank entries) refl

  get-blank :
      (k : Text) (entries : Fields)
      → get k (blank_fields entries) ≡ Option.map (blank (some k)) (get k entries)
  get-blank k no_fields = refl
  get-blank k (field key value entries) = elim (Bool-cases (text_eq key k)) [
    | inl e ↦ rw e (ap (λ t. some (blank (some t) value)) ((text_eq_iff key k).0 e))
    | inr e ↦ rw e (get-blank k entries)
  ]

  -- `data` is no key for addresses.
  collect-blank_data :
      (value : Json)
      → collect parse string_of structured none (blank (some (codes "data")) value)
        ≡ collect parse string_of structured none value
  unfolding is_urlish codes
  collect-blank_data (string value) = refl
  collect-blank_data (array items) = collect-blank none (array items)
  collect-blank_data (object entries) = collect-blank none (object entries)
  collect-blank_data null = refl
  collect-blank_data (boolean b) = refl
  collect-blank_data (number b) = refl

  block_chunks-blank :
      (block : Json)
      → block_chunks parse string_of structured (blank none block)
        ≡ block_chunks parse string_of structured block
  block_chunks-blank (object entries) =
      rw (get-blank (codes "data") entries) (elim (Option-cases (get (codes "data") entries)) [
        | inl e ↦ rw e refl
        | inr (value, e) ↦ rw e (collect-blank_data value)
      ])
  block_chunks-blank (string value) = refl
  block_chunks-blank (array items) = refl
  block_chunks-blank null = refl
  block_chunks-blank (boolean b) = refl
  block_chunks-blank (number b) = refl

  chunks_of-blank :
      (blocks : Items)
      → chunks_of parse string_of structured (blank_items blocks)
        ≡ chunks_of parse string_of structured blocks
  chunks_of-blank no_items = refl
  chunks_of-blank (item block blocks) = rw (block_chunks-blank block, chunks_of-blank blocks) refl

  blocks_of-blank :
      (value : Json) (blocks : Items)
      → blocks_of parse string_of structured value ≡ some (array blocks)
      → blocks_of parse string_of structured (blank none value) ≡ some (array (blank_items blocks))
  blocks_of-blank (object entries) blocks e =
      get-blank (codes "blocks") entries ∙ ap (Option.map (blank (some (codes "blocks")))) e
  blocks_of-blank (string value) blocks e = cc
  blocks_of-blank (array items) blocks e = cc
  blocks_of-blank null blocks e = cc
  blocks_of-blank (boolean b) blocks e = cc
  blocks_of-blank (number b) blocks e = cc

  -- The text of a document of the page builder is the same when every text under a key for
  -- addresses, pictures or files is blanked, whatever it holds and however deep it lies.
  pub page_text-blank :
      (value : Json) (blocks : Items)
      → blocks_of parse string_of structured value ≡ some (array blocks)
      → page_text parse string_of structured (some (blank none value))
        ≡ page_text parse string_of structured (some value)
  page_text-blank value blocks e =
      rw (blocks_of-blank value blocks e, e)
        (ap (joined parse string_of structured) (chunks_of-blank blocks))
