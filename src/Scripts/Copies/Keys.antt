-- ===== src/Scripts/Copies/Keys.antt =====
-- The keys of copied files.
use vethealth_backend.Base.{
  ℕ, ◌≡◌, ◌∙◌, refl, sym, ap, Bool, true, not, ◌||◌, List, [], ◌∷◌, ◌++◌, all, All, Text, codes,
  truthy, join, split, split-append, split-Lacks, Lacks, ◌==◌, arith, Bool-cases, inl, inr,
}
use mathlib.Core.List.{append-nil}
use vethealth_backend.Files.Service.{strip_slashes, normalized, storage_key_of}
use vethealth_backend.Scripts.References.{key_here, is_allowed, normalize_file_key}
use vethealth_backend.Scripts.Keys.{find_key-append, find_key-key}
use vethealth_backend.Scripts.Copies.{to_object_key}

-- A name of a file or a folder: not empty, and without slashes of either kind.
abbrev pub is_name_char : ℕ → Bool
is_name_char c = not (c == 47 || c == 92)

abbrev pub IsName : Text → Type 0
IsName name = (truthy name ≡ true) × (all is_name_char name ≡ true)

abbrev pub IsPath : List Text → Type 0
IsPath [] = ⊥
IsPath (name ∷ names) = IsName name × All IsName names

abbrev pub path_text : List Text → Text
unfolding join
path_text path = join (b'/' ∷ []) path

name-Lacks : (name : Text) → all is_name_char name ≡ true → Lacks 47 name
name-Lacks [] h = tt
name-Lacks (c ∷ name) h = (λ e. ground arith, name-Lacks name (ground arith))

-- A path is read back from its text.
split-path_text : (path : List Text) → IsPath path → split 47 (path_text path) ≡ path
unfolding join
split-path_text [] h = absurd h
split-path_text (name ∷ []) ((n, a), h) = split-Lacks 47 name (name-Lacks name a)
split-path_text (name ∷ next ∷ names) ((n, a), h) =
    split-append 47 name (path_text (next ∷ names)) (name-Lacks name a)
    ∙ ap (λ t. name ∷ t) (split-path_text (next ∷ names) h)

strip_slashes-path_text :
    (path : List Text) → IsPath path → strip_slashes (path_text path) ≡ path_text path
unfolding join
strip_slashes-path_text [] h = absurd h
strip_slashes-path_text ([] ∷ names) ((n, a), h) = absurd (ground arith)
strip_slashes-path_text ((c ∷ name) ∷ []) ((n, a), h) = ground arith
strip_slashes-path_text ((c ∷ name) ∷ next ∷ names) ((n, a), h) = ground arith

-- Without a prefix, the key is the path.
pub to_object_key-path_text :
    (path : List Text) → IsPath path → to_object_key [] path ≡ path_text path
unfolding to_object_key join
to_object_key-path_text path h = strip_slashes-path_text path h

-- So paths with the same key are the same.
pub to_object_key_injective :
    (p q : List Text) → IsPath p → IsPath q → to_object_key [] p ≡ to_object_key [] q → p ≡ q
to_object_key_injective p q hp hq e =
    let same = sym (to_object_key-path_text p hp) ∙ (e ∙ to_object_key-path_text q hq) in
    sym (split-path_text p hp) ∙ (ap (split 47) same ∙ split-path_text q hq)

normalized-name : (t u : Text) → all is_name_char t ≡ true → normalized (t ++ u) ≡ t ++ normalized u
normalized-name [] u h = refl
normalized-name (c ∷ t) u h = elim (Bool-cases (c == 92)) [
  | inl e ↦ absurd (ground arith)
  | inr e ↦ rw e (ap (λ s. c ∷ s) (normalized-name t u (ground arith)))
]

normalized-path_text :
    (path : List Text) → IsPath path → normalized (path_text path) ≡ path_text path
unfolding join
normalized-path_text [] h = absurd h
normalized-path_text (name ∷ []) ((n, a), h) = rw append-nil at (normalized-name name [] a)
normalized-path_text (name ∷ next ∷ names) ((n, a), h) =
    normalized-name name (b'/' ∷ path_text (next ∷ names)) a
    ∙ ap (λ t. name ++ (b'/' ∷ t)) (normalized-path_text (next ∷ names) h)

found :
    (path : List Text)
    → key_here (path_text path) ≡ true
    → all is_allowed (path_text path) ≡ true
    → normalize_file_key (codes "/uploads/" ++ path_text path) ≡ path_text path
unfolding normalize_file_key codes key_here
found path k a =
    rw
      (find_key-append (codes "/uploads/") (path_text path) refl, find_key-key (path_text path) k a)
      refl

-- The key under which a file is copied is the one that the service gives a file of that path, and the
-- one that the migration of the references gives the path of the file in the table. The path is one
-- of the program's keys, with characters that references may have.
pub to_object_key-agrees :
    (path : List Text)
    → IsPath path
    → key_here (path_text path) ≡ true
    → all is_allowed (path_text path) ≡ true
    → (to_object_key [] path ≡ storage_key_of (codes "uploads/" ++ path_text path))
      × (to_object_key [] path ≡ normalize_file_key (codes "/uploads/" ++ path_text path))
unfolding normalize_file_key codes
to_object_key-agrees path h k a = (
  to_object_key-path_text path h ∙ sym (normalized-path_text path h),
  to_object_key-path_text path h ∙ sym (found path k a),
)
