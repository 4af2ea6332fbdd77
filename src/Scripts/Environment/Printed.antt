-- ===== src/Scripts/Environment/Printed.antt =====
-- Environment files that are written with quotes.
use vethealth_backend.Base.{
  ℕ, ◌≡◌, ◌∙◌, refl, sym, ap, subst, Bool, true, false, not, ◌&&◌, ◌||◌, some, List, [], ◌∷◌, ◌++◌,
  filter, all, All, Text, truthy, trim, trim_end, is_space, split, split-append, Lacks, ◌==◌,
  ==_iff, arith, Bool-cases, inl, inr,
}
use mathlib.Core.List.{append_assoc}
use vethealth_backend.Scripts.Environment.{
  Environment, set_default, at_equals, last_is, without_last, unquoted, read_line, load_line,
  load_lines, load_env_file_if_exists, get_env,
}
use vethealth_backend.Scripts.Environment.Kept.{
  set_defaults, candidates, values_of, settled, get_env-set_defaults,
}

-- The characters that a key may have here: no white space, and neither `=` nor `#`.
abbrev pub is_key_char : ℕ → Bool
is_key_char c = not (is_space c || (c == b'=' || c == b'#'))

abbrev pub IsKey : Text → Type 0
IsKey key = (truthy key ≡ true) × (all is_key_char key ≡ true)

-- A value may have any characters but the ends of lines.
abbrev pub IsValue : Text → Type 0
IsValue value = all (λ c. not (c == 10 || c == 13)) value ≡ true

abbrev pub line_of : Text × Text → Text
line_of (key, value) = key ++ (b'=' ∷ (34 ∷ (value ++ (34 ∷ []))))

-- `KEY="value"`, a line for each variable
abbrev pub print_env : List (Text × Text) → Text
print_env [] = []
print_env (variable ∷ rest) = line_of variable ++ (10 ∷ print_env rest)

last_is-quote : (s : Text) → last_is 34 (s ++ (34 ∷ [])) ≡ true
last_is-quote [] = refl
last_is-quote (c ∷ []) = refl
last_is-quote (c ∷ d ∷ s) = last_is-quote (d ∷ s)

without_last-quote : (s : Text) → without_last (s ++ (34 ∷ [])) ≡ s
without_last-quote [] = refl
without_last-quote (c ∷ []) = refl
without_last-quote (c ∷ d ∷ s) = ap (λ t. c ∷ t) (without_last-quote (d ∷ s))

last_is-cons : (c : ℕ) (s : Text) → last_is 34 (c ∷ (s ++ (34 ∷ []))) ≡ true
last_is-cons c [] = refl
last_is-cons c (d ∷ s) = last_is-quote (d ∷ s)

unquoted-quote : (value : Text) → unquoted (34 ∷ (value ++ (34 ∷ []))) ≡ value
unquoted-quote value = rw (last_is-cons 34 value, without_last-quote value) refl

truthy-quote : (s : Text) → truthy (s ++ (34 ∷ [])) ≡ true
truthy-quote [] = refl
truthy-quote (c ∷ s) = refl

and_false : (b : Bool) → (b && false) ≡ false
and_false true = refl
and_false false = refl

trim_end-quote : (s : Text) → trim_end (s ++ (34 ∷ [])) ≡ s ++ (34 ∷ [])
unfolding is_space
trim_end-quote [] = refl
trim_end-quote (c ∷ s) = rw (trim_end-quote s, truthy-quote s, and_false (is_space c)) refl

key_char :
    (c : ℕ)
    → is_key_char c ≡ true
    → (is_space c ≡ false) × ((c == b'=') ≡ false) × ((c == b'#') ≡ false)
key_char c h = elim (Bool-cases (is_space c)) [
  | inl e ↦ absurd (ground arith)
  | inr e ↦ (e, ground arith, ground arith)
]

trim_end-key : (key : Text) → all is_key_char key ≡ true → trim_end key ≡ key
trim_end-key [] h = refl
trim_end-key (c ∷ key) h =
    let (space, _, _) = key_char c (ground arith) in
    let rest : all is_key_char key ≡ true = ground arith in rw (space, trim_end-key key rest) refl

trim-key : (key : Text) → IsKey key → trim key ≡ key
trim-key [] (n, h) = refl
trim-key (c ∷ key) (n, h) =
    let (space, _, _) = key_char c (ground arith) in rw space (trim_end-key (c ∷ key) h)

at_equals-append :
    (key t : Text) → all is_key_char key ≡ true → at_equals (key ++ (b'=' ∷ t)) ≡ some (key, t)
at_equals-append [] t h = refl
at_equals-append (c ∷ key) t h =
    let (_, equals, _) = key_char c (ground arith) in
    let rest : all is_key_char key ≡ true = ground arith in
    rw (equals, at_equals-append key t rest) refl

trim-line : (key value : Text) → IsKey key → trim (line_of (key, value)) ≡ line_of (key, value)
trim-line [] value (n, h) = absurd (ground arith)
trim-line (c ∷ key) value (n, h) =
    let (space, _, _) = key_char c (ground arith) in
    let line = (c ∷ key) ++ (b'=' ∷ (34 ∷ value)) in
    let split_up : line_of (c ∷ key, value) ≡ line ++ (34 ∷ []) =
      sym (append_assoc (c ∷ key) (b'=' ∷ (34 ∷ value)) (34 ∷ [])) in
    rw space (ap trim_end split_up ∙ (trim_end-quote line ∙ sym split_up))

trim-quoted : (value : Text) → trim (34 ∷ (value ++ (34 ∷ []))) ≡ 34 ∷ (value ++ (34 ∷ []))
unfolding is_space
trim-quoted value = trim_end-quote (34 ∷ value)

-- A printed line is read as the variable that it was printed from.
read_line-line_of :
    (key value : Text) → IsKey key → read_line (trim (line_of (key, value))) ≡ some (key, value)
read_line-line_of [] value (n, h) = absurd (ground arith)
read_line-line_of (c ∷ key) value (n, h) =
    let (_, _, hash) = key_char c (ground arith) in
    rw
      (
        trim-line (c ∷ key) value (n, h),
        hash,
        at_equals-append (c ∷ key) (34 ∷ (value ++ (34 ∷ []))) h,
        trim-key (c ∷ key) (n, h),
        trim-quoted value,
        unquoted-quote value,
      )
      refl

abbrev pub IsVariable : Text × Text → Type 0
IsVariable (key, value) = IsKey key × IsValue value

abbrev is_line_char : ℕ → Bool
is_line_char c = not (c == 10 || c == 13)

all-chars : (p : ℕ → Bool) (s t : Text) → all p s ≡ true → all p t ≡ true → all p (s ++ t) ≡ true
all-chars p [] t a b = b
all-chars p (c ∷ s) t a b = ground (arith, all-chars p s t)

all-weaken :
    (p q : ℕ → Bool) (t : Text)
    → ((c : ℕ) → p c ≡ true → q c ≡ true)
    → all p t ≡ true
    → all q t ≡ true
all-weaken p q [] f h = refl
all-weaken p q (c ∷ t) f h = ground (arith, all-weaken p q t f, f c)

line_key : (c : ℕ) → is_key_char c ≡ true → is_line_char c ≡ true
unfolding is_space
line_key c h = elim (Bool-cases (c == 10)) [
  | inl e ↦ absurd (ground (arith, subst (λ x. is_key_char x ≡ true) ((==_iff c 10).0 e) h))
  | inr e ↦ elim (Bool-cases (c == 13)) [
    | inl f ↦ absurd (ground (arith, subst (λ x. is_key_char x ≡ true) ((==_iff c 13).0 f) h))
    | inr f ↦ rw (e, f) refl
  ]
]

line_of-chars :
    (key value : Text) → IsKey key → IsValue value → all is_line_char (line_of (key, value)) ≡ true
unfolding is_space
line_of-chars key value (n, k) v =
    all-chars is_line_char key (b'=' ∷ (34 ∷ (value ++ (34 ∷ []))))
      (all-weaken is_key_char is_line_char key line_key k)
      (all-chars is_line_char value (34 ∷ []) v refl)

Lacks-of : (t : Text) → all is_line_char t ≡ true → Lacks 10 t
Lacks-of [] h = tt
Lacks-of (c ∷ t) h = (λ e. ground arith, Lacks-of t (ground arith))

filter_return : (t : Text) → all (λ c. not (c == 13)) t ≡ true → filter (λ c. not (c == 13)) t ≡ t
filter_return [] h = refl
filter_return (c ∷ t) h = ground (arith, filter_return t)

load_lines-print_env :
    (variables : List (Text × Text)) (env : Environment)
    → All IsVariable variables
    → (load_lines (split 10 (print_env variables)) env).1 ≡ set_defaults env variables
unfolding split
load_lines-print_env [] env h = refl
load_lines-print_env ((key, value) ∷ rest) env ((k, v), h) =
    ap (λ lines. (load_lines lines env).1)
      (split-append 10 (line_of (key, value)) (print_env rest)
        (Lacks-of (line_of (key, value)) (line_of-chars key value k v)))
    ∙ (ap (λ o. (load_lines (split 10 (print_env rest)) (load_line env o)).1)
          (read_line-line_of key value k)
        ∙ load_lines-print_env rest (set_default env (key, value)) h)

no_return : (c : ℕ) → is_line_char c ≡ true → not (c == 13) ≡ true
no_return c h = ground arith

print_env-chars :
    (variables : List (Text × Text))
    → All IsVariable variables
    → all (λ c. not (c == 13)) (print_env variables) ≡ true
print_env-chars [] h = refl
print_env-chars ((key, value) ∷ rest) ((k, v), h) =
    all-chars (λ c. not (c == 13)) (line_of (key, value)) (10 ∷ print_env rest)
      (all-weaken is_line_char (λ c. not (c == 13)) (line_of (key, value)) no_return
        (line_of-chars key value k v))
      (print_env-chars rest h)

loaded-print_env :
    (variables : List (Text × Text)) (env : Environment)
    → All IsVariable variables
    → (load_env_file_if_exists (some (print_env variables)) env).1 ≡ set_defaults env variables
unfolding load_env_file_if_exists
loaded-print_env variables env h =
    ap (λ t. (load_lines (split 10 t) env).1)
      (filter_return (print_env variables) (print_env-chars variables h))
    ∙ load_lines-print_env variables env h

-- Behind the loading of a printed file, each variable of the environment has the first value that is
-- not empty among the one that it had and those that the file was printed with, in their order; if
-- none is, it has the first of these, and it is not set if there are none. Keys are without white
-- space, `=` and `#`; a value may have any characters but the ends of lines, quotes too.
pub load_env_file_if_exists-print_env :
    (variables : List (Text × Text)) (env : Environment) (key : Text)
    → All IsVariable variables
    → get_env key (load_env_file_if_exists (some (print_env variables)) env).1
      ≡ settled (candidates (get_env key env) (values_of key variables))
load_env_file_if_exists-print_env variables env key h =
    ap (get_env key) (loaded-print_env variables env h) ∙ get_env-set_defaults key variables env
