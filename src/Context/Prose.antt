-- ===== src/Context/Prose.antt =====
-- The shape of visible text.
use vethealth_backend.Base.{
  ℕ, ◌≡◌, refl, ◌⊎◌, inl, inr, Bool, true, false, not, ◌&&◌, [], ◌∷◌, Text, is_space, truthy,
  trim_start, trim_end, collapse, arith, ◌==◌, Bool-cases, if◌then◌else◌,
}
use vethealth_backend.Context.Lexical.{Json, walk, lexical_text}

-- Words with single blanks between them, after what stood before; the last word may be followed by
-- a blank.
abbrev spaced : (behind_blank : Bool) → Text → Bool
spaced b [] = true
spaced b (c ∷ s) = if is_space c then not b && (c == 32 && spaced true s) else spaced false s

-- The same without a blank at the end.
abbrev pub tidy : (behind_blank : Bool) → Text → Bool
tidy b [] = not b
tidy b (c ∷ s) = if is_space c then not b && (c == 32 && tidy true s) else tidy false s

blank-IsSpace : is_space 32 ≡ true
unfolding is_space
blank-IsSpace = refl

spaced-collapse : (b : Bool) (s : Text) → spaced b (collapse b s) ≡ true
spaced-collapse b [] = refl
spaced-collapse b (c ∷ s) =
    ground (arith, spaced-collapse true s, spaced-collapse false s, blank-IsSpace)

spaced_weaken : (b : Bool) (s : Text) → spaced true s ≡ true → spaced b s ≡ true
spaced_weaken b [] h = refl
spaced_weaken b (c ∷ s) h = ground arith

spaced-trim_start : (b : Bool) (s : Text) → spaced b s ≡ true → spaced true (trim_start s) ≡ true
spaced-trim_start b [] h = refl
spaced-trim_start b (c ∷ s) h = ground (arith, spaced-trim_start true s)

tidy_or :
    (c : ℕ) (s t : Text) (b : Bool)
    → is_space c ≡ true
    → spaced b (c ∷ t) ≡ true
    → tidy true s ≡ true
    → ((if is_space c && not (truthy s) then [] else c ∷ s) ≡ [])
      ⊎ (tidy b (if is_space c && not (truthy s) then [] else c ∷ s) ≡ true)
tidy_or c [] t b e h f = inl (ground arith)
tidy_or c (d ∷ s) t b e h f = inr (ground arith)

tidy-trim_end :
    (b : Bool) (s : Text) → spaced b s ≡ true → (trim_end s ≡ []) ⊎ (tidy b (trim_end s) ≡ true)
tidy-trim_end b [] h = inl refl
tidy-trim_end b (c ∷ s) h = elim (Bool-cases (is_space c)) [
  | inl e ↦ elim (tidy-trim_end true s (ground arith)) [
    | inl f ↦ inl (ground arith)
    | inr f ↦ tidy_or c (trim_end s) s b e h f
  ]
  | inr e ↦ elim (tidy-trim_end false s (ground arith)) [
    | inl f ↦ inr (ground arith)
    | inr f ↦ inr (ground arith)
  ]
]

-- The visible text for the search has no white space but single blanks between its words: none at
-- either end, and no two in a row.
pub lexical_text-tidy :
    (string_of : Json → Text) (value : Json)
    → (lexical_text false string_of value ≡ [])
      ⊎ (tidy true (lexical_text false string_of value) ≡ true)
unfolding lexical_text
lexical_text-tidy string_of value =
    let text = (walk false string_of value).text in
    tidy-trim_end true (trim_start (collapse false text))
      (spaced-trim_start false (collapse false text) (spaced-collapse false text))
