-- ===== src/Scripts/Rewrites.antt =====
-- `rewriteImageRefs` of scripts/migrate-db-refs-to-r2.js: the references to images in a text.
pub mod Twice
pub mod Bases
pub mod Schemes
pub mod Matches
pub mod Starts
use vethealth_backend.Base.{
  ℕ, Bool, true, false, not, Option, none, some, [], ◌∷◌, ◌++◌, Text, codes, if◌then◌else◌,
}
use vethealth_backend.Scripts.References.{is_allowed, behind, key_here, allowed_part, or_self}

-- `word?` at the start of a text, in letters of any case
abbrev pub optional : (word : Text) → Text → Text
optional word t = or_self t (behind word t)

abbrev pub behind_all : (word : Text) → Option Text → Option Text
behind_all word none = none
behind_all word (some t) = behind word t

abbrev pub behind_scheme : Option Text → Option Text
behind_scheme none = none
behind_scheme (some t) = behind (codes "//") (optional (codes ":") (optional (codes "s") t))

-- The text behind `https?:?\/\/`
unfoldable pub scheme_rest : Text → Option Text
unfolding codes
scheme_rest t = behind_scheme (behind (codes "http") t)

-- The first key behind characters that are allowed, and behind as few of them as possible: what
-- follows the scheme, `[^"'\s\\)]*?\/?(images\/(?:posts|topics)\/[^"'\s\\)]+)`. A slash before the
-- key is one of these characters.
abbrev pub first_key : Text → Option Text
first_key [] = none
first_key (c ∷ t) =
    let rest = first_key t in
    if key_here (c ∷ t) then some (allowed_part (c ∷ t)) else if is_allowed c then rest else none

abbrev pub scheme_key : Option Text → Option Text
scheme_key none = none
scheme_key (some t) = first_key t

-- Without the scheme, `\/?(images\/...)`
abbrev pub slash_key : Text → Option Text
slash_key t = let u = optional (codes "/") t in if key_here u then some (allowed_part u) else none

abbrev pub or_else : Option Text → Option Text → Option Text
or_else none o = o
or_else (some k) o = some k

-- `IMG_KEY_RE` at the start of a text: the group with the key. The regular expression tries the
-- prefix with the scheme first.
unfoldable pub match_here : Text → Option Text
unfolding codes
match_here t = or_else (scheme_key (scheme_rest t)) (slash_key t)

abbrev pub replaced : (public_base : Text) → Option Text → (after kept : Text) → Text
replaced public_base none after kept = kept
replaced public_base (some key) after kept = public_base ++ (b'/' ∷ (key ++ after))

-- The text with its matches replaced, from a character on that no match covers, and from one on that
-- a match has reached. A match ends before the first character that is not allowed.
abbrev pub rewrite_from : (public_base : Text) → Text → Text × Text
rewrite_from public_base [] = ([], [])
rewrite_from public_base (c ∷ t) =
    let (kept, after) = rewrite_from public_base t in
    (
      replaced public_base (match_here (c ∷ t)) after (c ∷ kept),
      if is_allowed c then after else c ∷ kept,
    )

-- `value.replace(IMG_KEY_RE, ...)`, for a base without `$`, which `replace` reads in its own way
unfoldable pub rewrite_image_refs : (value public_base : Text) → Text
rewrite_image_refs value public_base = (rewrite_from public_base value).0
