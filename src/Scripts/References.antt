-- ===== src/Scripts/References.antt =====
-- scripts/migrate-db-refs-to-r2.js: the key of a stored file, from any form that its path has.
use vethealth_backend.Base.{
  ℕ, ◌+◌, Bool, false, not, ◌&&◌, ◌||◌, Option, none, some, [], ◌∷◌, ◌++◌, Text, codes, is_space,
  leb, ◌==◌, if◌then◌else◌,
}

-- `[^"'\s\\)]`
abbrev pub is_allowed : ℕ → Bool
is_allowed c = not (c == 34 || (c == 39 || (is_space c || (c == 92 || c == 41))))

-- The text behind a word, which stands here in letters of any case; the word is in small letters.
abbrev pub behind : (word : Text) → Text → Option Text
behind [] t = some t
behind (c ∷ word) [] = none
behind (c ∷ word) (d ∷ t) =
    let rest = behind word t in
    if d == c || (leb 97 c && (leb c 122 && d + 32 == c)) then rest else none

abbrev pub starts_allowed : Option Text → Bool
starts_allowed none = false
starts_allowed (some []) = false
starts_allowed (some (c ∷ t)) = is_allowed c

-- `/images\/(?:posts|topics)\/[^"'\s\\)]/i`, here
unfoldable pub key_here : Text → Bool
unfolding codes
key_here t =
    starts_allowed (behind (codes "images/posts/") t)
    || starts_allowed (behind (codes "images/topics/") t)

-- The allowed text from here on. The letters and slashes of a key's beginning are allowed.
abbrev pub allowed_part : Text → Text
allowed_part [] = []
allowed_part (c ∷ t) = let rest = allowed_part t in if is_allowed c then c ∷ rest else []

-- `value.match(FILE_KEY_RE)`
abbrev pub find_key : Text → Option Text
find_key [] = none
find_key (c ∷ t) =
    let rest = find_key t in if key_here (c ∷ t) then some (allowed_part (c ∷ t)) else rest

abbrev pub or_self : Text → Option Text → Text
or_self t none = t
or_self t (some s) = s

-- `value.replace(/^\/?uploads\//, '')`
abbrev pub exactly_behind : (word : Text) → Text → Option Text
exactly_behind [] t = some t
exactly_behind (c ∷ word) [] = none
exactly_behind (c ∷ word) (d ∷ t) =
    let rest = exactly_behind word t in if d == c then rest else none

abbrev either : Option Text → Option Text → Option Text
either none o = o
either (some t) o = some t

unfoldable pub strip_uploads_prefix : Text → Text
unfolding codes
strip_uploads_prefix t =
    or_self t (either (exactly_behind (codes "/uploads/") t) (exactly_behind (codes "uploads/") t))

-- `normalizeFileKey`
unfoldable pub normalize_file_key : Text → Text
normalize_file_key t = or_self (strip_uploads_prefix t) (find_key t)

-- A key starts somewhere in the first text, when the second follows it.
abbrev pub starts_in : Text → Text → Bool
starts_in [] t = false
starts_in (c ∷ s) t = key_here ((c ∷ s) ++ t) || starts_in s t
