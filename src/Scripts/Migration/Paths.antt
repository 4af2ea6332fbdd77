-- ===== src/Scripts/Migration/Paths.antt =====
-- Paths of files that are normalized twice.
use vethealth_backend.Base.{
  ℕ, ◌≡◌, ◌≢◌, sym, subst, none, some, [], ◌∷◌, Text, ◌==◌, Bool-cases, Option-cases, inl, inr,
  codes,
}
use vethealth_backend.Scripts.References.{
  normalize_file_key, strip_uploads_prefix, find_key, key_here, exactly_behind, or_self,
}
use vethealth_backend.Scripts.Keys.{normalize_file_key_twice}

-- The prefix `uploads/` stands once at most.
abbrev pub IsNormal : Text → Type 0
IsNormal path = strip_uploads_prefix (strip_uploads_prefix path) ≡ strip_uploads_prefix path

some-ne_none : {k : Text} → some k ≢ none
some-ne_none e = cc

find_key-tail : (c : ℕ) (t : Text) → find_key (c ∷ t) ≡ none → find_key t ≡ none
find_key-tail c t e = elim (Bool-cases (key_here (c ∷ t))) [
  | inl h ↦ absurd (some-ne_none (rw h at e))
  | inr h ↦ rw h at e
]

-- What follows a word in a text without a key has none.
find_key-behind :
    (word t u : Text) → exactly_behind word t ≡ some u → find_key t ≡ none → find_key u ≡ none
find_key-behind [] t u h e = subst (λ o. find_key (or_self t o) ≡ none) h e
find_key-behind (c ∷ word) [] u h e = absurd (some-ne_none (sym h))
find_key-behind (c ∷ word) (d ∷ t) u h e = elim (Bool-cases (d == c)) [
  | inl f ↦ find_key-behind word t u (rw f at h) (find_key-tail d t e)
  | inr f ↦ absurd (some-ne_none (sym (rw f at h)))
]

strip-find_key : (p : Text) → find_key p ≡ none → find_key (strip_uploads_prefix p) ≡ none
unfolding strip_uploads_prefix
strip-find_key p e = elim (Option-cases (exactly_behind (codes "/uploads/") p)) [
  | inr (u, h) ↦ rw h (find_key-behind (codes "/uploads/") p u h e)
  | inl h ↦ elim (Option-cases (exactly_behind (codes "uploads/") p)) [
    | inr (u, f) ↦ rw (h, f) (find_key-behind (codes "uploads/") p u f e)
    | inl f ↦ rw (h, f) e
  ]
]

pub normalize_file_key_again :
    (p : Text) → IsNormal p → normalize_file_key (normalize_file_key p) ≡ normalize_file_key p
unfolding normalize_file_key
normalize_file_key_again p n = elim (Option-cases (find_key p)) [
  | inl e ↦ rw (e, strip-find_key p e) n
  | inr (k, e) ↦ (normalize_file_key_twice p k e).2
]
