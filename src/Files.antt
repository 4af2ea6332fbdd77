-- ===== src/Files.antt =====
-- modules/files: the type of an uploaded image by its bytes (utils/sniff-image-type.ts), and what
-- files.service.ts stores of uploads (Service); Paths and Storages make the addresses of files.
pub mod Service
pub mod Uploads
pub mod Forms
pub mod Paths
pub mod Storages
pub mod Addresses
mod Tests
use vethealth_backend.Base.{
  ℕ, ◌+◌, ◌-◌, ◌%◌, Bool, true, false, not, ◌&&◌, ◌||◌, Option, none, some, List, [], ◌∷◌, ◌++◌,
  length, take, drop, get_elem?, any, Text, codes, text_eq, is_space, trim_start, ltb, ◌==◌,
  if◌then◌else◌,
}

-- `SniffedImage`
pub record SniffedImage : Type 0 where
  pub mime_type : Text
  pub extension : Text

-- `buffer[i] === n`
abbrev pub byte_is : List ℕ → ℕ → ℕ → Bool
byte_is buffer i n = elim (get_elem? buffer i) [ none ↦ false | some b ↦ b == n ]

-- `toString('ascii')` drops the eighth bit.
abbrev pub ascii : List ℕ → Text
ascii [] = []
ascii (b ∷ bytes) = b % 128 ∷ ascii bytes

abbrev pub ascii_at : List ℕ → (offset length : ℕ) → Text
ascii_at buffer offset n = ascii (take n (drop offset buffer))

abbrev pub image : (mime_type extension : Text) → Option SniffedImage
image mime_type extension = some (record { mime_type = mime_type; extension = extension })

-- One letter of either case
abbrev same_letter : ℕ → ℕ → Bool
same_letter lower c = c == lower || c + 32 == lower

abbrev pub starts_svg : Text → Bool
starts_svg (a ∷ s ∷ v ∷ g ∷ c ∷ t) =
    a == b'<'
    && (same_letter b's' s
        && (same_letter b'v' v && (same_letter b'g' g && (is_space c || c == b'>'))))
starts_svg _ = false

-- `/<svg[\s>]/i.test(head)`
abbrev pub has_svg : Text → Bool
has_svg [] = false
has_svg (c ∷ t) = starts_svg (c ∷ t) || has_svg t

abbrev pub starts : (prefix t : Text) → Bool
starts [] t = true
starts (c ∷ prefix) [] = false
starts (c ∷ prefix) (d ∷ t) = if d == c then starts prefix t else false

-- The text of the first bytes says SVG.
abbrev pub sniff_svg : Text → Option SniffedImage
sniff_svg head =
    if (starts (codes "<?xml") head || starts (codes "<svg") head) && has_svg head
    then image (codes "image/svg+xml") (codes ".svg")
    else none

abbrev pub is_jpeg : List ℕ → Bool
is_jpeg b = byte_is b 0 255 && (byte_is b 1 216 && byte_is b 2 255)

abbrev pub is_png : List ℕ → Bool
is_png b =
    byte_is b 0 137
    && (text_eq (ascii_at b 1 3) (codes "PNG")
        && (byte_is b 4 13 && (byte_is b 5 10 && (byte_is b 6 26 && byte_is b 7 10))))

abbrev pub is_webp : List ℕ → Bool
is_webp b = text_eq (ascii_at b 0 4) (codes "RIFF") && text_eq (ascii_at b 8 4) (codes "WEBP")

-- The brand of an ISO container
abbrev pub sniff_brand : Text → Option SniffedImage → Option SniffedImage
sniff_brand brand rest =
    if text_eq brand (codes "avif") || text_eq brand (codes "avis")
    then image (codes "image/avif") (codes ".avif")
    else if text_eq brand (codes "heic")
        || (text_eq brand (codes "heix") || text_eq brand (codes "mif1"))
    then image (codes "image/heic") (codes ".heic")
    else rest

-- `sniffImageType`; `utf8` is the decoding of bytes.
unfoldable pub sniff_image_type : (utf8 : List ℕ → Text) → List ℕ → Option SniffedImage
sniff_image_type utf8 b =
    if ltb (length b) 12
    then none
    else if is_jpeg b
    then image (codes "image/jpeg") (codes ".jpg")
    else if is_png b
    then image (codes "image/png") (codes ".png")
    else if text_eq (ascii_at b 0 3) (codes "GIF")
    then image (codes "image/gif") (codes ".gif")
    else if is_webp b
    then image (codes "image/webp") (codes ".webp")
    else let svg = sniff_svg (trim_start (utf8 (take 1024 b))) in
      if text_eq (ascii_at b 4 4) (codes "ftyp") then sniff_brand (ascii_at b 8 4) svg else svg

-- `jpegAliases`
abbrev pub is_jpeg_alias : Text → Bool
is_jpeg_alias t = text_eq t (codes ".jpg") || text_eq t (codes ".jpeg")

-- The path that `reconcileExtension` returns; the file is renamed if it is another one. `extension`
-- is `path.extname(file.path).toLowerCase()`.
unfoldable pub reconcile_extension : (path extension : Text) → Option SniffedImage → Text
reconcile_extension path extension none = path
reconcile_extension path extension (some sniffed) =
    if text_eq extension sniffed.extension
      || (is_jpeg_alias extension && is_jpeg_alias sniffed.extension)
    then path
    else take (length path - length extension) path ++ sniffed.extension

-- A text in letters of any case; the word is in small letters.
abbrev pub is_word : (word t : Text) → Bool
is_word [] [] = true
is_word [] (d ∷ t) = false
is_word (c ∷ word) [] = false
is_word (c ∷ word) (d ∷ t) = same_letter c d && is_word word t

abbrev pub is_image_extension : Text → Bool
is_image_extension t =
    is_word (codes "jpg") t
    || (is_word (codes "jpeg") t
        || (is_word (codes "png") t
            || (is_word (codes "gif") t
                || (is_word (codes "webp") t
                    || (is_word (codes "avif") t || is_word (codes "svg") t)))))

-- `/\.(jpg|jpeg|png|gif|webp|avif|svg)$/i`
abbrev pub is_image_name : Text → Bool
is_image_name [] = false
is_image_name (c ∷ t) = (c == b'.' && is_image_extension t) || is_image_name t
