-- ===== src/Scripts/Rewrites/Schemes.antt =====
-- No match is new in a rewritten text.
use vethealth_backend.Base.{
  ℕ, ◌≡◌, refl, sym, subst, true, Option, none, some, is_some, [], ◌∷◌, Text, codes, arith, all,
  is_space, Bool-cases, Option-cases, inl, inr,
}
use vethealth_backend.Scripts.References.{is_allowed, behind, key_here}
use vethealth_backend.Scripts.Keys.{allowed_letter}
use vethealth_backend.Scripts.Rewrites.{
  optional, scheme_rest, behind_scheme, first_key, scheme_key, slash_key, or_else, match_here,
}
use vethealth_backend.Scripts.Rewrites.Starts.{
  fits, behind_cons, behind_nil, none-ne_some, match_here-cases,
}
use vethealth_backend.Scripts.Rewrites.Matches.{
  rewritten, behind-rewritten, optional-rewritten, false-ne_true, key_here_cons-rewritten,
  slash_key-rewritten,
}

first_key-cons :
    (c : ℕ) (t : Text)
    → is_allowed c ≡ true
    → is_some (first_key t) ≡ true
    → is_some (first_key (c ∷ t)) ≡ true
first_key-cons c t a h = elim (Bool-cases (key_here (c ∷ t))) [
  | inl e ↦ rw e refl
  | inr e ↦ rw (e, a) h
]

first_key-here : (t : Text) → key_here t ≡ true → is_some (first_key t) ≡ true
unfolding key_here codes
first_key-here [] h = absurd (false-ne_true h)
first_key-here (c ∷ t) h = rw h refl

slash_key-here : (t k : Text) → slash_key t ≡ some k → key_here (optional (codes "/") t) ≡ true
slash_key-here t k h = elim (Bool-cases (key_here (optional (codes "/") t))) [
  | inl e ↦ e
  | inr e ↦ absurd (none-ne_some (rw e at h))
]

-- A key behind allowed characters is one from there on.
pub first_key-behind :
    (word t r : Text)
    → all is_allowed word ≡ true
    → behind word t ≡ some r
    → is_some (first_key r) ≡ true
    → is_some (first_key t) ≡ true
first_key-behind [] t r a h k = subst (λ o. is_some (scheme_key o) ≡ true) (sym h) k
first_key-behind (d ∷ word) [] r a h k = absurd (behind_nil d word r h)
first_key-behind (d ∷ word) (c ∷ t) r a h k =
    let (f, g) = behind_cons d word c t r h in
    first_key-cons c t (allowed_letter d c (ground arith) f)
      (first_key-behind word t r (ground arith) g k)

first_key-optional :
    (word t : Text)
    → all is_allowed word ≡ true
    → is_some (first_key (optional word t)) ≡ true
    → is_some (first_key t) ≡ true
first_key-optional word t a k = elim (Option-cases (behind word t)) [
  | inl e ↦ rw e at k
  | inr (r, e) ↦ first_key-behind word t r a e (rw e at k)
]

behind_scheme-cases :
    (o : Option Text) (r : Text)
    → behind_scheme o ≡ some r
    → (t : Text) × (o ≡ some t)
      × (behind (codes "//") (optional (codes ":") (optional (codes "s") t)) ≡ some r)
behind_scheme-cases none r h = absurd (none-ne_some h)
behind_scheme-cases (some t) r h = (t, refl, h)

first_key-scheme :
    (t r : Text)
    → scheme_rest t ≡ some r
    → is_some (first_key r) ≡ true
    → is_some (first_key t) ≡ true
unfolding scheme_rest codes is_space
first_key-scheme t r h k =
    let (u, e, g) = behind_scheme-cases (behind (codes "http") t) r h in
    first_key-behind (codes "http") t u refl e (
      first_key-optional (codes "s") u refl (
        first_key-optional (codes ":") (optional (codes "s") u) refl
          (first_key-behind (codes "//") _ r refl g k)))

-- Where a match is, is a key in the allowed characters from there on.
pub first_key-match : (t k : Text) → match_here t ≡ some k → is_some (first_key t) ≡ true
unfolding codes is_space
first_key-match t k h = elim (match_here-cases t k h) [
  | inl (u, e, f) ↦ first_key-scheme t u e (rw f refl)
  | inr e ↦
      first_key-optional (codes "/") t refl
        (first_key-here (optional (codes "/") t) (slash_key-here t k e))
]

behind_of :
    (d : ℕ) (word : Text) (c : ℕ) (t r : Text)
    → fits d c ≡ true
    → behind word t ≡ some r
    → behind (d ∷ word) (c ∷ t) ≡ some r
behind_of d word c t r f h = rw (f, h) refl

scheme_rest_of :
    (t u r : Text)
    → behind (codes "http") t ≡ some u
    → behind (codes "//") (optional (codes ":") (optional (codes "s") u)) ≡ some r
    → scheme_rest t ≡ some r
unfolding scheme_rest
scheme_rest_of t u r e h = rw e h

or_else-some : (o p : Option Text) → is_some o ≡ true → is_some (or_else o p) ≡ true
or_else-some none p h = absurd (false-ne_true h)
or_else-some (some k) p h = refl

or_else-any : (o : Option Text) (k : Text) → is_some (or_else o (some k)) ≡ true
or_else-any none k = refl
or_else-any (some j) k = refl

module _ (b : Text) where
  first_key-rewritten :
      (t : Text) → is_some (first_key (rewritten b t)) ≡ true → is_some (first_key t) ≡ true
  first_key-rewritten [] h = h
  first_key-rewritten (c ∷ t) h = elim (Option-cases (match_here (c ∷ t))) [
    | inl e ↦ elim (Bool-cases (key_here (c ∷ rewritten b t))) [
      | inl f ↦ first_key-here (c ∷ t) (key_here_cons-rewritten b c t f)
      | inr f ↦ elim (Bool-cases (is_allowed c)) [
        | inl a ↦ first_key-cons c t a (first_key-rewritten t (rw (e, f, a) at h))
        | inr a ↦ absurd (false-ne_true (rw (e, f, a) at h))
      ]
    ]
    | inr (k, e) ↦ first_key-match (c ∷ t) k e
  ]

  scheme_rest-rewritten :
      (c : ℕ) (t r : Text)
      → scheme_rest (c ∷ rewritten b t) ≡ some r
      → (s : Text) × (scheme_rest (c ∷ t) ≡ some s) × (r ≡ rewritten b s)
  unfolding scheme_rest codes
  scheme_rest-rewritten c t r h =
      let (u, e, g) = behind_scheme-cases (behind (codes "http") (c ∷ rewritten b t)) r h in
      let (f, e') = behind_cons 104 (codes "ttp") c (rewritten b t) u e in
      let (v, p, q) = behind-rewritten b (codes "ttp") t u refl e' in
      let s_done = optional-rewritten b 115 v refl (λ d x. ground arith) in
      let colon_done =
        optional-rewritten b 58 (optional (codes "s") v) refl (λ d x. ground arith) in
      let (s, p', q') =
        behind-rewritten b (codes "//") (optional (codes ":") (optional (codes "s") v)) r refl
          (rw (q, s_done, colon_done) at g) in
      (s, scheme_rest_of (c ∷ t) v s (behind_of 104 (codes "ttp") c t v f p) p', q')

  is_some-match_here :
      (c : ℕ) (t k : Text)
      → match_here (c ∷ rewritten b t) ≡ some k
      → is_some (match_here (c ∷ t)) ≡ true
  unfolding match_here
  is_some-match_here c t k h = elim (match_here-cases (c ∷ rewritten b t) k h) [
    | inl (u, e, f) ↦
        let (s, p, q) = scheme_rest-rewritten c t u e in
        let key : is_some (first_key u) ≡ true = rw f refl in
        let found : is_some (first_key s) ≡ true =
          first_key-rewritten s (subst (λ x. is_some (first_key x) ≡ true) q key) in
        rw p (or_else-some (first_key s) (slash_key (c ∷ t)) found)
    | inr e ↦
        let (j, p) = slash_key-rewritten b c t k e in
        rw p (or_else-any (scheme_key (scheme_rest (c ∷ t))) j)
  ]

  -- Where no match was, none is in the rewritten text.
  pub match_here-rewritten :
      (c : ℕ) (t : Text) → match_here (c ∷ t) ≡ none → match_here (c ∷ rewritten b t) ≡ none
  match_here-rewritten c t e = elim (Option-cases (match_here (c ∷ rewritten b t))) [
    | inl f ↦ f
    | inr (k, f) ↦ absurd (false-ne_true (rw e at (is_some-match_here c t k f)))
  ]
