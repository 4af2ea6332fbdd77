-- ===== src/Context/Lexical.antt =====
-- `lexicalText` of utils/seo-content-context.ts and `extractLexicalText` of
-- utils/content-text.ts: the visible text of a document of the Lexical editor.
use vethealth_backend.Base.{
  ℕ, ◌+◌, ◌==◌, leb, Bool, true, false, not, ◌&&◌, ◌||◌, Option, none, some, List, [], ◌∷◌, ◌++◌,
  Text, codes, text_eq, truthy, trim, collapse, if◌then◌else◌,
}

-- A value that `JSON.parse` makes. `number` says whether it is other than 0.
mutual
  pub data Json : Type 0 where
    null : Json
    boolean number : Bool → Json
    string : Text → Json
    array : Items → Json
    object : Fields → Json

  pub data Items : Type 0 where
    no_items : Items
    item : Json → Items → Items

  pub data Fields : Type 0 where
    no_fields : Fields
    field : Text → Json → Fields → Fields

-- The value of a key; `none` is `undefined`.
abbrev pub get : Text → Fields → Option Json
get k no_fields = none
get k (field key value fields) = if text_eq key k then some value else get k fields

abbrev is_truthy : Option Json → Bool
is_truthy none = false
is_truthy (some null) = false
is_truthy (some (boolean b)) = b
is_truthy (some (number b)) = b
is_truthy (some (string t)) = truthy t
is_truthy (some (array xs)) = true
is_truthy (some (object entries)) = true

-- `x === t` for a text
abbrev is_text : Option Json → Text → Bool
is_text (some (string s)) t = text_eq s t
is_text _ t = false

-- What the walk makes of a value, and of its members one by one if it is an array.
pub record Walked : Type 0 where
  pub text : Text
  pub items : Option Text

abbrev walked_at : Text → List (Text × Walked) → Option Walked
walked_at k [] = none
walked_at k ((key, w) ∷ ws) = if text_eq key k then some w else walked_at k ws

abbrev text_of : Option Walked → Text
text_of none = []
text_of (some w) = w.text

-- `Array.isArray(record.children)`, with the members' texts
abbrev items_of : Option Walked → Option Text
items_of none = none
items_of (some w) = w.items

-- `String(x)`
abbrev string_or : (Json → Text) → Json → Text
string_or string_of (string s) = s
string_or string_of other = string_of other

-- `String(record.type)` is one of `TEXT_LEAF_TYPES`. `string_of` is JavaScript's `String` on what
-- is no string.
abbrev is_leaf_type : (Json → Text) → Option Json → Bool
is_leaf_type string_of none = false
is_leaf_type string_of (some type) =
    let t = string_or string_of type in
    text_eq t (codes "text")
    || (text_eq t (codes "code-highlight")
        || (text_eq t (codes "hashtag") || text_eq t (codes "keyword")))

abbrev string_at : Option Json → Option Text
string_at (some (string s)) = some s
string_at _ = none

abbrev is_inline : Option Json → Bool
is_inline type =
    is_text type (codes "link") || (is_text type (codes "autolink") || is_text type (codes "mark"))

-- The text of a node with children.
abbrev block_text : (structured : Bool) → Option Json → Option Text → Text
block_text structured type none = []
block_text structured type (some text) =
    if is_inline type
    then text
    else (if structured && is_text type (codes "heading") then b'#' ∷ b'#' ∷ 32 ∷ text else text)
      ++ (10 ∷ [])

abbrev leaf_or_block : Bool → Option Text → Text → Text
leaf_or_block false own block = block
leaf_or_block true none block = block
leaf_or_block true (some own) block = own

-- `walk` for an object, by what it makes of the values of the object.
abbrev node_text : (structured : Bool) → (Json → Text) → Fields → List (Text × Walked) → Text
node_text structured string_of fields walked =
    let type = get (codes "type") fields in
    if is_truthy (get (codes "root") fields)
    then text_of (walked_at (codes "root") walked)
    else if is_text type (codes "linebreak")
    then 10 ∷ []
    else if is_text type (codes "tab")
    then 9 ∷ []
    else leaf_or_block (not (is_truthy type) || is_leaf_type string_of type)
        (string_at (get (codes "text") fields))
        (block_text structured type (items_of (walked_at (codes "children") walked)))

abbrev mutual
  pub walk : (structured : Bool) → (Json → Text) → Json → Walked
  walk b string_of (object fields) = record {
    text = node_text b string_of fields (walk_fields b string_of fields);
    items = none;
  }
  walk b string_of (array items) = record { text = []; items = some (walk_items b string_of items) }
  walk b string_of null = record { text = []; items = none }
  walk b string_of (boolean x) = record { text = []; items = none }
  walk b string_of (number x) = record { text = []; items = none }
  walk b string_of (string x) = record { text = []; items = none }

  pub walk_items : Bool → (Json → Text) → Items → Text
  walk_items b string_of no_items = []
  walk_items b string_of (item x items) = (walk b string_of x).text ++ walk_items b string_of items

  walk_fields : Bool → (Json → Text) → Fields → List (Text × Walked)
  walk_fields b string_of no_fields = []
  walk_fields b string_of (field k x fields) =
      (k, walk b string_of x) ∷ walk_fields b string_of fields

-- `text.replace(/[ \t]+/g, ' ')`
abbrev squeeze : (in_run : Bool) → Text → Text
squeeze b [] = []
squeeze b (c ∷ s) =
    if c == 32 || c == 9
    then (if b then squeeze true s else 32 ∷ squeeze true s)
    else c ∷ squeeze false s

abbrev starts_line : Text → Bool
starts_line [] = false
starts_line (c ∷ s) = c == 10

-- `text.replace(/ *\n */g, '\n')`: the spaces behind a line feed, then those before one
abbrev drop_behind : (behind : Bool) → Text → Text
drop_behind b [] = []
drop_behind b (c ∷ s) = if c == 32 && b then drop_behind true s else c ∷ drop_behind (c == 10) s

abbrev drop_before : Text → Text
drop_before [] = []
drop_before (c ∷ s) =
    let rest = drop_before s in if c == 32 && starts_line rest then rest else c ∷ rest

-- `text.replace(/\n{3,}/g, '\n\n')`, after so many line feeds of which two at most were kept
abbrev limit_lines : ℕ → Text → Text
limit_lines n [] = []
limit_lines n (c ∷ s) =
    if c == 10
    then (if leb 2 n then limit_lines n s else 10 ∷ limit_lines (n + 1) s)
    else c ∷ limit_lines 0 s

unfoldable pub lexical_text : (structured : Bool) → (Json → Text) → Json → Text
lexical_text true string_of value = trim (
    limit_lines 0
      (drop_before (drop_behind false (squeeze false (walk true string_of value).text))))
lexical_text false string_of value = trim (collapse false (walk false string_of value).text)

-- `extractLexicalText`
abbrev pub extract_lexical_text : (Json → Text) → Json → Text
extract_lexical_text string_of value = lexical_text false string_of value
