-- ===== src/Scripts/Rewrites/Matches.antt =====
-- Where a rewritten text has matches, the text had them.
use vethealth_backend.Base.{
  ℕ, ◌≡◌, ◌≢◌, refl, Bool, true, false, not, ◌||◌, none, some, [], ◌∷◌, ◌++◌, Text, codes, ◌==◌,
  arith, all, is_space, Bool-cases, Option-cases, inl, inr,
}
use vethealth_backend.Scripts.References.{behind, key_here, allowed_part, starts_allowed}
use vethealth_backend.Scripts.Rewrites.{optional, slash_key, match_here, rewrite_from}
use vethealth_backend.Scripts.Rewrites.Starts.{
  fits, behind_cons, behind_nil, none-ne_some, tail_here, key_here-cons, match_here-starts,
  starts_match,
}

pub false-ne_true : false ≢ true
false-ne_true e = cc

pub or_true : (a : Bool) → (a || true) ≡ true
or_true true = refl
or_true false = refl

-- The text outside of matches, rewritten with a base that starts with `h`.
module _ (b : Text) where
  abbrev pub rewritten : Text → Text
  rewritten t = (rewrite_from (104 ∷ b) t).0

  abbrev pub rest_of : Text → Text
  rest_of t = (rewrite_from (104 ∷ b) t).1

  pub rewritten-none :
      (c : ℕ) (t : Text) → match_here (c ∷ t) ≡ none → rewritten (c ∷ t) ≡ c ∷ rewritten t
  rewritten-none c t e = rw e refl

  pub rewritten-some :
      (c : ℕ) (t k : Text)
      → match_here (c ∷ t) ≡ some k
      → rewritten (c ∷ t) ≡ 104 ∷ (b ++ (b'/' ∷ (k ++ rest_of t)))
  rewritten-some c t k e = rw e refl

  -- A word without `h` at the start of a rewritten text was there before.
  pub behind-rewritten :
      (word t r : Text)
      → all (λ c. not (fits c 104)) word ≡ true
      → behind word (rewritten t) ≡ some r
      → (s : Text) × (behind word t ≡ some s) × (r ≡ rewritten s)
  behind-rewritten [] t r a h = (t, refl, ground arith)
  behind-rewritten (d ∷ word) [] r a h = absurd (behind_nil d word r h)
  behind-rewritten (d ∷ word) (c ∷ t) r a h = elim (Option-cases (match_here (c ∷ t))) [
    | inl e ↦
        let (f, g) = behind_cons d word c (rewritten t) r (rw e at h) in
        let (s, p, q) = behind-rewritten word t r (ground arith) g in (s, rw (f, p) refl, q)
    | inr (k, e) ↦
        let (f, g) = behind_cons d word 104 (b ++ (b'/' ∷ (k ++ rest_of t))) r (rw e at h) in
        absurd (ground arith)
  ]

  -- One letter that may stand there: it is neither `h` nor the start of a match.
  pub optional-rewritten :
      (d : ℕ) (t : Text)
      → fits d 104 ≡ false
      → ((c : ℕ) → fits d c ≡ true → starts_match c ≡ false)
      → optional (d ∷ []) (rewritten t) ≡ rewritten (optional (d ∷ []) t)
  optional-rewritten d [] n m = refl
  optional-rewritten d (c ∷ t) n m = elim (Option-cases (match_here (c ∷ t))) [
    | inl e ↦ elim (Bool-cases (fits d c)) [ inl f ↦ rw (e, f) refl | inr f ↦ rw (e, f, e) refl ]
    | inr (k, e) ↦ elim (Bool-cases (fits d c)) [
      | inl f ↦ absurd (ground (arith, m c f, match_here-starts c t k e))
      | inr f ↦ rw (e, n, f, e) refl
    ]
  ]

  starts_allowed-rewritten :
      (t : Text) → starts_allowed (some (rewritten t)) ≡ true → starts_allowed (some t) ≡ true
  unfolding is_space
  starts_allowed-rewritten [] h = h
  starts_allowed-rewritten (c ∷ t) h = elim (Option-cases (match_here (c ∷ t))) [
    | inl e ↦ rw e at h
    | inr (k, e) ↦ ground (arith, match_here-starts c t k e)
  ]

  word-rewritten :
      (word t : Text)
      → all (λ c. not (fits c 104)) word ≡ true
      → starts_allowed (behind word (rewritten t)) ≡ true
      → starts_allowed (behind word t) ≡ true
  word-rewritten word t a h = elim (Option-cases (behind word (rewritten t))) [
    | inl e ↦ absurd (false-ne_true (rw e at h))
    | inr (r, e) ↦
        let (s, p, q) = behind-rewritten word t r a e in
        rw p (starts_allowed-rewritten s (rw (e, q) at h))
  ]

  tail_here-rewritten : (t : Text) → tail_here (rewritten t) ≡ true → tail_here t ≡ true
  unfolding codes
  tail_here-rewritten t h =
      elim (Bool-cases (starts_allowed (behind (codes "mages/posts/") (rewritten t)))) [
        | inl e ↦ rw (word-rewritten (codes "mages/posts/") t refl e) refl
        | inr e ↦
            rw (word-rewritten (codes "mages/topics/") t refl (rw e at h))
              (or_true (starts_allowed (behind (codes "mages/posts/") t)))
      ]

  pub key_here_cons-rewritten :
      (c : ℕ) (t : Text) → key_here (c ∷ rewritten t) ≡ true → key_here (c ∷ t) ≡ true
  key_here_cons-rewritten c t h = elim (Bool-cases (fits 105 c)) [
    | inl e ↦
        let tail : tail_here (rewritten t) ≡ true = rw (key_here-cons c (rewritten t), e) at h in
        rw (key_here-cons c t, e, tail_here-rewritten t tail) refl
    | inr e ↦ absurd (false-ne_true (rw (key_here-cons c (rewritten t), e) at h))
  ]

  key_here-rewritten : (t : Text) → key_here (rewritten t) ≡ true → key_here t ≡ true
  key_here-rewritten [] h = h
  key_here-rewritten (c ∷ t) h = elim (Option-cases (match_here (c ∷ t))) [
    | inl e ↦ key_here_cons-rewritten c t (rw e at h)
    | inr (k, e) ↦
        absurd (false-ne_true (rw (e, key_here-cons 104 (b ++ (b'/' ∷ (k ++ rest_of t)))) at h))
  ]

  pub slash_key-rewritten :
      (c : ℕ) (t k : Text)
      → slash_key (c ∷ rewritten t) ≡ some k
      → (j : Text) × (slash_key (c ∷ t) ≡ some j)
  unfolding codes
  slash_key-rewritten c t k h = elim (Bool-cases (c == 47)) [
    | inl e ↦ elim (Bool-cases (key_here (rewritten t))) [
      | inl f ↦ (allowed_part t, rw (e, key_here-rewritten t f) refl)
      | inr f ↦ absurd (none-ne_some (rw (e, f) at h))
    ]
    | inr e ↦ elim (Bool-cases (key_here (c ∷ rewritten t))) [
      | inl f ↦ (allowed_part (c ∷ t), rw (e, key_here_cons-rewritten c t f) refl)
      | inr f ↦ absurd (none-ne_some (rw (e, f) at h))
    ]
  ]
