-- ===== src/Scripts/Rewrites/Starts.antt =====
-- What a rewritten text starts with, next to the text itself.
use vethealth_backend.Base.{
  ℕ, ◌+◌, ◌≡◌, ◌≢◌, ◌⊎◌, ◌∙◌, refl, Bool, true, ◌&&◌, ◌||◌, none, some, [], ◌∷◌, Text, codes, leb,
  ◌==◌, arith, Bool-cases, Option-cases, inl, inr,
}
use vethealth_backend.Scripts.References.{behind, key_here, starts_allowed}
use vethealth_backend.Scripts.Rewrites.{scheme_rest, first_key, slash_key, match_here}

-- A letter of the text stands for one of a word.
abbrev pub fits : (word_letter letter : ℕ) → Bool
fits c d = d == c || (leb 97 c && (leb c 122 && d + 32 == c))

pub behind_cons :
    (c : ℕ) (word : Text) (d : ℕ) (t r : Text)
    → behind (c ∷ word) (d ∷ t) ≡ some r
    → (fits c d ≡ true) × (behind word t ≡ some r)
behind_cons c word d t r h = (ground arith, ground arith)

pub behind_nil : (c : ℕ) (word r : Text) → behind (c ∷ word) [] ≢ some r
behind_nil c word r h = cc

-- A match starts with `h`, `/` or `i`.
abbrev pub starts_match : ℕ → Bool
starts_match c = fits 104 c || (c == 47 || fits 105 c)

pub none-ne_some : {k : Text} → none ≢ some k
none-ne_some e = cc

pub scheme_rest-starts : (c : ℕ) (t r : Text) → scheme_rest (c ∷ t) ≡ some r → fits 104 c ≡ true
unfolding scheme_rest codes
scheme_rest-starts c t r h = elim (Option-cases (behind (codes "http") (c ∷ t))) [
  | inl e ↦ absurd (none-ne_some (rw e at h))
  | inr (u, e) ↦ (behind_cons 104 (codes "ttp") c t u e).0
]

-- A key behind its first letter
abbrev pub tail_here : Text → Bool
tail_here t =
    starts_allowed (behind (codes "mages/posts/") t)
    || starts_allowed (behind (codes "mages/topics/") t)

pub key_here-cons : (c : ℕ) (t : Text) → key_here (c ∷ t) ≡ (fits 105 c && tail_here t)
unfolding key_here codes
key_here-cons c t = elim (Bool-cases (fits 105 c)) [ inl e ↦ rw e refl | inr e ↦ rw e refl ]

slash_key-starts :
    (c : ℕ) (t k : Text) → slash_key (c ∷ t) ≡ some k → (c == 47 || fits 105 c) ≡ true
unfolding codes
slash_key-starts c t k h = elim (Bool-cases (c == 47)) [
  | inl e ↦ rw e refl
  | inr e ↦ elim (Bool-cases (fits 105 c)) [
    | inl f ↦ rw (e, f) refl
    | inr f ↦ absurd (none-ne_some (rw (e, key_here-cons c t, f) at h))
  ]
]

-- Where a match starts, the scheme or the key does.
pub match_here-cases :
    (t k : Text)
    → match_here t ≡ some k
    → ((u : Text) × (scheme_rest t ≡ some u) × (first_key u ≡ some k)) ⊎ (slash_key t ≡ some k)
unfolding match_here
match_here-cases t k h = elim (Option-cases (scheme_rest t)) [
  | inl e ↦ inr (rw e at h)
  | inr (u, e) ↦ elim (Option-cases (first_key u)) [
    | inl f ↦ inr (rw (e, f) at h)
    | inr (j, f) ↦ inl (u, e, f ∙ rw (e, f) at h)
  ]
]

pub match_here-starts : (c : ℕ) (t k : Text) → match_here (c ∷ t) ≡ some k → starts_match c ≡ true
match_here-starts c t k h = elim (match_here-cases (c ∷ t) k h) [
  | inl (u, e, f) ↦ rw (scheme_rest-starts c t u e) refl
  | inr e ↦ ground (arith, slash_key-starts c t k e)
]
