-- ===== src/Scripts/Environment/Kept.antt =====
-- What a file leaves of the environment.
use vethealth_backend.Base.{
  ◌≡◌, ◌∙◌, refl, true, false, Option, none, some, List, [], ◌∷◌, filter, split, not, ◌==◌, Text,
  text_eq, text_eq_iff, text_eq_refl, first, Option-cases, ap, subst, if◌then◌else◌, truthy, trim,
  arith, Bool-cases, inl, inr,
}
use vethealth_backend.Scripts.References.{or_self}
use vethealth_backend.Scripts.Environment.{
  Environment, get_env, set_env, is_unset, set_default, read_line, load_line, load_lines,
  load_env_file_if_exists,
}

get_env-set_env_other :
    (j k value : Text) (env : Environment)
    → text_eq k j ≡ false
    → get_env j (set_env k value env) ≡ get_env j env
get_env-set_env_other j k value [] n = rw n refl
get_env-set_env_other j k value ((i, v) ∷ env) n = elim (Bool-cases (text_eq i k)) [
  | inl e ↦ rw (e, (text_eq_iff i k).0 e, n) refl
  | inr e ↦ elim (Bool-cases (text_eq i j)) [
    | inl f ↦ rw (e, f) refl
    | inr f ↦ rw (e, f) (get_env-set_env_other j k value env n)
  ]
]

get_env-set_default :
    (j value : Text) (env : Environment) (variable : Text × Text)
    → get_env j env ≡ some value
    → truthy value ≡ true
    → get_env j (set_default env variable) ≡ some value
get_env-set_default j value env (k, v) e t = elim (Bool-cases (is_unset (get_env k env))) [
  | inr f ↦ rw f e
  | inl f ↦ elim (Bool-cases (text_eq k j)) [
    | inl g ↦ absurd (ground (arith, rw ((text_eq_iff k j).0 g, e, t) at f))
    | inr g ↦ rw f (get_env-set_env_other j k v env g ∙ e)
  ]
]

get_env-load_lines :
    (j value : Text) (lines : List Text) (env : Environment)
    → get_env j env ≡ some value
    → truthy value ≡ true
    → get_env j (load_lines lines env).1 ≡ some value
get_env-load_lines j value [] env e t = e
get_env-load_lines j value (line ∷ lines) env e t =
    get_env-load_lines j value lines (load_line env (read_line (trim line)))
      (kept (read_line (trim line))) t
  where
    kept : (o : Option (Text × Text)) → get_env j (load_line env o) ≡ some value
    kept none = e
    kept (some variable) = get_env-set_default j value env variable e t

-- No file, whatever it holds, changes a variable that has a value already.
pub load_env_file_if_exists_keeps :
    (j value : Text) (raw : Option Text) (env : Environment)
    → get_env j env ≡ some value
    → truthy value ≡ true
    → get_env j (load_env_file_if_exists raw env).1 ≡ some value
unfolding load_env_file_if_exists
load_env_file_if_exists_keeps j value none env e t = e
load_env_file_if_exists_keeps j value (some raw) env e t =
    get_env-load_lines j value (split 10 (filter (λ c. not (c == 13)) raw)) env e t

-- The variables are set one after the other.
abbrev pub set_defaults : Environment → List (Text × Text) → Environment
set_defaults env [] = env
set_defaults env (variable ∷ rest) = set_defaults (set_default env variable) rest

-- The values that a list of variables has for a key.
abbrev pub values_of : Text → List (Text × Text) → List Text
values_of key [] = []
values_of key ((k, v) ∷ variables) =
    let rest = values_of key variables in if text_eq k key then v ∷ rest else rest

abbrev pub candidates : (old : Option Text) → (new : List Text) → List Text
candidates none new = new
candidates (some v) new = v ∷ new

-- The first that is not empty, or else the first.
abbrev pub settled : List Text → Option Text
settled [] = none
settled (v ∷ values) = some (if truthy v then v else or_self v (first truthy values))

get_env-set_env_self :
    (key value : Text) (env : Environment) → get_env key (set_env key value env) ≡ some value
get_env-set_env_self key value [] = rw (text_eq_refl key) refl
get_env-set_env_self key value ((k, v) ∷ env) = elim (Bool-cases (text_eq k key)) [
  | inl e ↦ rw (e, e) refl
  | inr e ↦ rw (e, e) (get_env-set_env_self key value env)
]

-- One more value, as `set_default` takes it.
settled-candidates :
    (old : Option Text) (v : Text) (values : List Text)
    → settled (candidates (if is_unset old then some v else old) values)
      ≡ settled (candidates old (v ∷ values))
settled-candidates none v values = refl
settled-candidates (some (c ∷ t)) v values = refl
settled-candidates (some []) [] values = refl
settled-candidates (some []) (c ∷ v) values = refl

get_env-set_default_self :
    (key v : Text) (env : Environment)
    → get_env key (set_default env (key, v))
      ≡ (if is_unset (get_env key env) then some v else get_env key env)
get_env-set_default_self key v env = elim (Bool-cases (is_unset (get_env key env))) [
  | inl e ↦ rw e (get_env-set_env_self key v env)
  | inr e ↦ rw e refl
]

get_env-set_default_other :
    (key k v : Text) (env : Environment)
    → text_eq k key ≡ false
    → get_env key (set_default env (k, v)) ≡ get_env key env
get_env-set_default_other key k v env n = elim (Bool-cases (is_unset (get_env k env))) [
  | inl e ↦ rw e (get_env-set_env_other key k v env n)
  | inr e ↦ rw e refl
]

settled_one : (v : Text) → some v ≡ settled (v ∷ [])
settled_one [] = refl
settled_one (c ∷ v) = refl

-- What the environment has for a key behind the variables.
pub get_env-set_defaults :
    (key : Text) (variables : List (Text × Text)) (env : Environment)
    → get_env key (set_defaults env variables)
      ≡ settled (candidates (get_env key env) (values_of key variables))
get_env-set_defaults key [] env = elim (Option-cases (get_env key env)) [
  | inl e ↦ rw e refl
  | inr (v, e) ↦ rw e (settled_one v)
]
get_env-set_defaults key ((k, v) ∷ variables) env = elim (Bool-cases (text_eq k key)) [
  | inl e ↦
      let o = get_env key env in
      let values = values_of key variables in
      let now : get_env key (set_default env (k, v)) ≡ (if is_unset o then some v else o) =
        subst
          (λ j.
            get_env j (set_default env (k, v))
            ≡ (if is_unset (get_env j env) then some v else get_env j env))
          ((text_eq_iff k key).0 e) (get_env-set_default_self k v env) in
      rw e (
        get_env-set_defaults key variables (set_default env (k, v))
        ∙ (ap (λ p. settled (candidates p values)) now ∙ settled-candidates o v values))
  | inr e ↦ rw e (
      get_env-set_defaults key variables (set_default env (k, v))
      ∙ ap (λ p. settled (candidates p (values_of key variables)))
          (get_env-set_default_other key k v env e))
]
