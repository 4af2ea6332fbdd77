-- ===== src/Scripts/ContentTypes.antt =====
-- scripts/fix-r2-content-types.js: the stored Content-Type of each object of a bucket is compared
-- with the type that its bytes show, and repaired.
use vethealth_backend.Base.{
  ℕ, ◌+◌, ◌≡◌, ◌≢◌, Bool, true, false, ◌&&◌, ◌||◌, Option, none, some, List, [], ◌∷◌, ◌++◌, length,
  take, Text, codes, text_eq, truthy, trim, trim_start, split, ltb, leb, if◌then◌else◌,
}
use vethealth_backend.Files.{byte_is, ascii_at, starts, has_svg}

-- `sniffImageType` of the script; `utf8` is the decoding of bytes.
abbrev pub svg_type : Text → Option Text
svg_type head =
    if starts (codes "<?xml") head || starts (codes "<svg") head
    then (if has_svg head then some (codes "image/svg+xml") else none)
    else none

abbrev pub brand_type : Text → Option Text → Option Text
brand_type brand rest =
    if text_eq brand (codes "avif") || text_eq brand (codes "avis")
    then some (codes "image/avif")
    else if text_eq brand (codes "heic")
        || (text_eq brand (codes "heix") || text_eq brand (codes "mif1"))
    then some (codes "image/heic")
    else rest

abbrev jpeg_bytes : List ℕ → Bool
jpeg_bytes b = byte_is b 0 255 && (byte_is b 1 216 && byte_is b 2 255)

abbrev png_bytes : List ℕ → Bool
png_bytes b =
    byte_is b 0 137
    && (text_eq (ascii_at b 1 3) (codes "PNG")
        && (byte_is b 4 13 && (byte_is b 5 10 && (byte_is b 6 26 && byte_is b 7 10))))

abbrev webp_bytes : List ℕ → Bool
webp_bytes b = text_eq (ascii_at b 0 4) (codes "RIFF") && text_eq (ascii_at b 8 4) (codes "WEBP")

unfoldable pub sniffed_type : (utf8 : List ℕ → Text) → List ℕ → Option Text
sniffed_type utf8 b =
    if ltb (length b) 12
    then none
    else if jpeg_bytes b
    then some (codes "image/jpeg")
    else if png_bytes b
    then some (codes "image/png")
    else if text_eq (ascii_at b 0 3) (codes "GIF")
    then some (codes "image/gif")
    else if webp_bytes b
    then some (codes "image/webp")
    else let svg = svg_type (trim_start (utf8 (take 1024 b))) in
      if text_eq (ascii_at b 4 4) (codes "ftyp") then brand_type (ascii_at b 8 4) svg else svg

abbrev head_part : List Text → Text
head_part [] = []
head_part (part ∷ parts) = part

-- `normalize`; `lower` is `toLowerCase`.
abbrev normalize_type : (lower : Text → Text) → Text → Text
normalize_type lower value =
    let type = lower (trim (head_part (split b';' value))) in
    if text_eq type (codes "image/jpg") then codes "image/jpeg" else type

-- `isEquivalent`
unfoldable pub is_equivalent : (lower : Text → Text) → (stored actual : Text) → Bool
is_equivalent lower stored actual =
    truthy stored && text_eq (normalize_type lower stored) (normalize_type lower actual)

-- An object of a listing, and the answers of `ListObjectsV2` in their order.
pub record ListedObject : Type 0 where
  pub key : Text
  pub size : ℕ

-- One answer of a listing: its objects are read until the limit is reached. A limit of 0 is none.
-- The second part says that it was.
abbrev pub read_page : (limit : ℕ) → List Text → List ListedObject → List Text × Bool
read_page limit keys [] = (keys, false)
read_page limit keys (o ∷ objects) =
    let keys' = if ltb 0 o.size then keys ++ (o.key ∷ []) else keys in
    let rest = read_page limit keys' objects in
    if ltb 0 limit && leb limit (length keys') then (keys', true) else rest

-- `listAllObjects`; the answers follow each other until the last, which is not truncated.
unfoldable pub list_all_objects : (limit : ℕ) → List (List ListedObject) → List Text → List Text
list_all_objects limit [] keys = keys
list_all_objects limit (page ∷ pages) keys =
    let (keys', done) = read_page limit keys page in
    let rest = list_all_objects limit pages keys' in if done then keys' else rest

-- What the script uses of the bucket, as the storage documents it: the stored type of an object and
-- its first bytes, and the copy of an object onto itself, which replaces the type and nothing else.
-- `none` is an error.
pub record Bucket (W : Type 0) : Type 0 where
  pub head_object : Text → W → Option Text
  pub read_head : Text → W → Option (List ℕ)
  pub copy_object : (key type : Text) → W → Option W
  pub head_object-copy :
      (k t : Text) (w w' : W)
      → copy_object k t w ≡ some w'
      → (s : Text) → head_object k w' ≡ some s
      → s ≡ t
  pub head_object-other :
      (k j t : Text) (w w' : W)
      → copy_object k t w ≡ some w'
      → j ≢ k
      → head_object j w' ≡ head_object j w
  pub read_head-copy :
      (k j t : Text) (w w' : W) → copy_object k t w ≡ some w' → read_head j w' ≡ read_head j w

-- What becomes of one object.
pub data Outcome : Type 0 where
  unknown ok fixed failed : Outcome

-- `stats`
pub record Stats : Type 0 where
  pub total : ℕ
  pub ok : ℕ
  pub fixed : ℕ
  pub unknown : ℕ
  pub failed : ℕ

abbrev pub no_stats : Stats
no_stats = record { total = 0; ok = 0; fixed = 0; unknown = 0; failed = 0 }

abbrev pub count : Outcome → Stats → Stats
count unknown s = record s { total = s.total + 1; unknown = s.unknown + 1 }
count ok s = record s { total = s.total + 1; ok = s.ok + 1 }
count fixed s = record s { total = s.total + 1; fixed = s.fixed + 1 }
count failed s = record s { total = s.total + 1; failed = s.failed + 1 }

module _ {W : Type 0} (bucket : Bucket W) (lower : Text → Text) (utf8 : List ℕ → Text)
    (execute : Bool) where
  abbrev copied : Option W → W → Outcome × W
  copied none w = (failed, w)
  copied (some w') w = (fixed, w')

  -- The repair of an object with the type that its bytes show.
  abbrev pub repair : (key stored actual : Text) → W → Outcome × W
  repair key stored actual w =
      if is_equivalent lower stored actual
      then (ok, w)
      else if execute
      then copied (bucket.copy_object key actual w) w
      else (fixed, w)

  abbrev with_actual : Text → Text → Option Text → W → Outcome × W
  with_actual key stored none w = (unknown, w)
  with_actual key stored (some actual) w = repair key stored actual w

  abbrev with_bytes : Text → Text → Option (List ℕ) → W → Outcome × W
  with_bytes key stored none w = (failed, w)
  with_bytes key stored (some bytes) w = with_actual key stored (sniffed_type utf8 bytes) w

  abbrev with_head : Text → Option Text → W → Outcome × W
  with_head key none w = (failed, w)
  with_head key (some stored) w = with_bytes key stored (bucket.read_head key w) w

  -- The body of the loop over the keys
  unfoldable pub inspect_object : Text → W → Outcome × W
  inspect_object key w = with_head key (bucket.head_object key w) w

  -- The loop of `main`
  unfoldable pub inspect_all : List Text → Stats → W → Stats × W
  unfolding inspect_object
  inspect_all [] stats w = (stats, w)
  inspect_all (key ∷ keys) stats w =
      let (outcome, w') = inspect_object key w in inspect_all keys (count outcome stats) w'
