-- ===== src/Context/Pages.antt =====
-- utils/content-text.ts: the text of posts and of the documents of the page builder. `JSON.parse`
-- and `String` are parameters; an object has its fields in the order of `Object.entries`.
use vethealth_backend.Base.{
  ℕ, ◌+◌, ◌==◌, leb, Bool, true, false, ◌&&◌, ◌||◌, Option, none, some, List, [], ◌∷◌, ◌++◌, map,
  filter, Text, codes, text_eq, truthy, trim, collapse, join, if◌then◌else◌,
}
use vethealth_backend.Context.Lexical.{
  Json, null, boolean, number, string, array, object, Items, no_items, item, Fields, no_fields,
  field, get, lexical_text,
}

-- A Latin letter without its case; no other letter has an ASCII one for its other case here.
abbrev lower : ℕ → ℕ
lower c = if leb 65 c && leb c 90 then c + 32 else c

-- `word` stands here, in letters of any case.
abbrev word_here : (word : Text) → Text → Bool
word_here [] t = true
word_here (c ∷ word) [] = false
word_here (c ∷ word) (d ∷ t) = lower d == c && word_here word t

abbrev has_word : Text → Text → Bool
has_word word [] = word_here word []
has_word word (d ∷ t) = word_here word (d ∷ t) || has_word word t

-- `URLISH_KEYS.test(key)`
unfoldable pub is_urlish : Text → Bool
is_urlish key =
    has_word (codes "url") key
    || (has_word (codes "href") key
        || (has_word (codes "image") key
            || (has_word (codes "photo") key || has_word (codes "src") key)))

-- `key && URLISH_KEYS.test(key)`
abbrev pub is_skipped : Option Text → Bool
is_skipped none = false
is_skipped (some key) = truthy key && is_urlish key

abbrev is_content : Option Text → Bool
is_content none = false
is_content (some key) = text_eq key (codes "content")

-- `parseJson`; `none` is `undefined`.
abbrev pub parse_json : (Text → Option Json) → Option Text → Option Json
parse_json parse none = none
parse_json parse (some content) = if truthy content then parse content else none

module _ (parse : Text → Option Json) (string_of : Json → Text) (structured : Bool) where
  abbrev parsed_text : Option Json → Text
  parsed_text none = []
  parsed_text (some value) = lexical_text structured string_of value

  -- `lexicalContentText`
  unfoldable pub lexical_content_text : Option Text → Text
  lexical_content_text content = parsed_text (parse_json parse content)

  abbrev mutual
    -- `collect`
    pub collect : Option Text → Json → List Text
    collect key (string value) =
        if is_skipped key
        then []
        else (if is_content key then lexical_content_text (some value) else value) ∷ []
    collect key (array items) = collect_items items
    collect key (object fields) = collect_fields fields
    collect key null = []
    collect key (boolean b) = []
    collect key (number b) = []

    pub collect_items : Items → List Text
    collect_items no_items = []
    collect_items (item value items) = collect none value ++ collect_items items

    pub collect_fields : Fields → List Text
    collect_fields no_fields = []
    collect_fields (field key value fields) = collect (some key) value ++ collect_fields fields

  -- `collect(block?.data)`
  abbrev pub collect_data : Option Json → List Text
  collect_data none = []
  collect_data (some value) = collect none value

  abbrev pub block_chunks : Json → List Text
  block_chunks (object fields) = collect_data (get (codes "data") fields)
  block_chunks _ = []

  abbrev pub chunks_of : Items → List Text
  chunks_of no_items = []
  chunks_of (item block blocks) = block_chunks block ++ chunks_of blocks

  -- `normalize`
  abbrev pub normalize : List Text → Text
  normalize chunks = collapse false (join (32 ∷ []) (filter truthy (map trim chunks)))

  abbrev pub joined : List Text → Text
  joined chunks =
      if structured then join (10 ∷ 10 ∷ []) (filter truthy chunks) else normalize chunks

  -- A document with blocks; any other value is read as one of the editor.
  abbrev pub document_text : Json → Option Json → Text
  document_text value (some (array blocks)) = joined (chunks_of blocks)
  document_text value _ = lexical_text structured string_of value

  abbrev pub blocks_of : Json → Option Json
  blocks_of (object fields) = get (codes "blocks") fields
  blocks_of _ = none

  abbrev pub page_text : Option Json → Text
  page_text none = []
  page_text (some value) = document_text value (blocks_of value)

  -- `pageBlocksText`
  unfoldable pub page_blocks_text : Option Text → Text
  page_blocks_text content = page_text (parse_json parse content)
