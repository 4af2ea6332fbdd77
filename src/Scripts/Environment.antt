-- ===== src/Scripts/Environment.antt =====
-- `loadEnvFileIfExists` of scripts/migrate-uploads-to-r2-node.js and migrate-db-refs-to-r2.js, which
-- have it in the same words, and the environment that it fills. That of fix-r2-content-types.js, which
-- keeps an empty value, is another function.
pub mod Printed
pub mod Kept
use vethealth_backend.Base.{
  ℕ, Bool, true, false, not, ◌&&◌, ◌||◌, Option, none, some, is_some, List, [], ◌∷◌, ◌++◌, filter,
  Text, text_eq, truthy, trim, split, ◌==◌, if◌then◌else◌,
}

-- `process.env`
abbrev pub Environment : Type 0
Environment = List (Text × Text)

abbrev pub get_env : Text → Environment → Option Text
get_env key [] = none
get_env key ((k, v) ∷ env) = if text_eq k key then some v else get_env key env

abbrev pub set_env : (key value : Text) → Environment → Environment
set_env key value [] = (key, value) ∷ []
set_env key value ((k, v) ∷ env) =
    let rest = set_env key value env in if text_eq k key then (k, value) ∷ env else (k, v) ∷ rest

-- Not set, or empty
abbrev pub is_unset : Option Text → Bool
is_unset none = true
is_unset (some v) = not (truthy v)

-- `if (!process.env[key]) process.env[key] = value`
abbrev pub set_default : Environment → Text × Text → Environment
set_default env (key, value) = if is_unset (get_env key env) then set_env key value env else env

abbrev pub in_front : ℕ → Option (Text × Text) → Option (Text × Text)
in_front c none = none
in_front c (some (s, t)) = some (c ∷ s, t)

-- The text before the first `=` and the text behind it: `indexOf` with the two slices
abbrev pub at_equals : Text → Option (Text × Text)
at_equals [] = none
at_equals (c ∷ t) = let rest = at_equals t in if c == b'=' then some ([], t) else in_front c rest

abbrev pub last_is : ℕ → Text → Bool
last_is q [] = false
last_is q (c ∷ []) = c == q
last_is q (c ∷ d ∷ t) = last_is q (d ∷ t)

abbrev pub first_is : ℕ → Text → Bool
first_is q [] = false
first_is q (c ∷ t) = c == q

-- `value.slice(0, -1)`
abbrev pub without_last : Text → Text
without_last [] = []
without_last (c ∷ []) = []
without_last (c ∷ d ∷ t) = c ∷ without_last (d ∷ t)

-- `value.slice(1, -1)`
abbrev pub inner : Text → Text
inner [] = []
inner (c ∷ t) = without_last t

abbrev pub is_quoted : Text → Bool
is_quoted value = (first_is 34 value && last_is 34 value) || (first_is 39 value && last_is 39 value)

abbrev pub unquoted : Text → Text
unquoted value = if is_quoted value then inner value else value

abbrev pub assignment : Option (Text × Text) → Option (Text × Text)
assignment none = none
assignment (some (s, t)) = some (trim s, unquoted (trim t))

-- One line, trimmed: the variable that it sets.
abbrev pub read_line : Text → Option (Text × Text)
read_line [] = none
read_line (c ∷ t) = if c == b'#' then none else assignment (at_equals (c ∷ t))

abbrev pub load_line : Environment → Option (Text × Text) → Environment
load_line env none = env
load_line env (some variable) = set_default env variable

-- The loop over the lines: whether a line sets something, and the environment
abbrev pub load_lines : List Text → Environment → Bool × Environment
load_lines [] env = (false, env)
load_lines (line ∷ lines) env =
    let read = read_line (trim line) in
    let (more, env') = load_lines lines (load_line env read) in (is_some read || more, env')

-- `none` is a file that does not exist.
unfoldable pub load_env_file_if_exists : Option Text → Environment → Bool × Environment
load_env_file_if_exists none env = (false, env)
load_env_file_if_exists (some raw) env = load_lines (split 10 (filter (λ c. not (c == 13)) raw)) env
