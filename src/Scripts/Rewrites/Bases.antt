-- ===== src/Scripts/Rewrites/Bases.antt =====
-- Bases of addresses, and what they are when a key follows.
use vethealth_backend.Base.{
  ◌≡◌, ◌⊎◌, refl, Bool, true, false, not, ◌&&◌, ◌||◌, Option, none, some, is_some, [], ◌∷◌, ◌++◌,
  Text, codes, arith, all, is_space, Bool-cases, inl, inr,
}
use vethealth_backend.Scripts.References.{
  is_allowed, behind, key_here, allowed_part, starts_allowed,
}
use vethealth_backend.Scripts.Keys.{key_here-ne_nil}
use vethealth_backend.Scripts.Rewrites.{first_key}
use vethealth_backend.Scripts.Rewrites.Starts.{fits, key_here-cons}

-- The word stands somewhere in the text, in letters of any case.
abbrev pub has_word : (word t : Text) → Bool
has_word word [] = false
has_word word (c ∷ t) = is_some (behind word (c ∷ t)) || has_word word t

-- An address with a scheme, of characters that references may have, which does not name `images/`.
pub record IsBase (public_base : Text) : Type 0 where
  pub host : Text
  pub scheme : (public_base ≡ codes "http://" ++ host) ⊎ (public_base ≡ codes "https://" ++ host)
  pub allowed : all is_allowed host ≡ true
  pub no_images : has_word (codes "images/") (host ++ (b'/' ∷ [])) ≡ false

-- One letter, and a slash at the end only
abbrev ends_in_slash : Text → Bool
ends_in_slash [] = false
ends_in_slash (c ∷ []) = true
ends_in_slash (c ∷ d ∷ word) = not (fits c 47) && ends_in_slash (d ∷ word)

-- Such a word stands before what follows a slash, if it stands there at all.
behind-slash :
    (word u t : Text)
    → ends_in_slash word ≡ true
    → is_some (behind word (u ++ (b'/' ∷ t))) ≡ true
    → is_some (behind word (u ++ (b'/' ∷ []))) ≡ true
behind-slash [] u t e h = refl
behind-slash (c ∷ []) [] t e h = ground arith
behind-slash (c ∷ []) (d ∷ u) t e h = ground arith
behind-slash (c ∷ c' ∷ word) [] t e h = ground arith
behind-slash (c ∷ c' ∷ word) (d ∷ u) t e h = ground (arith, behind-slash (c' ∷ word) u t)

behind-part :
    (word more t : Text) → is_some (behind (word ++ more) t) ≡ true → is_some (behind word t) ≡ true
behind-part [] more t h = refl
behind-part (c ∷ word) more [] h = h
behind-part (c ∷ word) more (d ∷ t) h = ground (arith, behind-part word more t)

some-of_starts : (o : Option Text) → starts_allowed o ≡ true → is_some o ≡ true
some-of_starts none h = h
some-of_starts (some t) h = refl

images-of_key : (t : Text) → key_here t ≡ true → is_some (behind (codes "images/") t) ≡ true
unfolding key_here codes
images-of_key t h = elim (Bool-cases (starts_allowed (behind (codes "images/posts/") t))) [
  | inl e ↦ behind-part (codes "images/") (codes "posts/") t (some-of_starts _ e)
  | inr e ↦ behind-part (codes "images/") (codes "topics/") t (some-of_starts _ (rw e at h))
]

-- The key behind a base is the first one.
pub first_key-base :
    (host t : Text)
    → all is_allowed host ≡ true
    → has_word (codes "images/") (host ++ (b'/' ∷ [])) ≡ false
    → key_here t ≡ true
    → first_key (host ++ (b'/' ∷ t)) ≡ some (allowed_part t)
unfolding codes is_space
first_key-base [] [] a n h = absurd (key_here-ne_nil h)
first_key-base [] (c ∷ t) a n h = rw (key_here-cons 47 (c ∷ t), h) refl
first_key-base (c ∷ host) t a n h = elim (Bool-cases (key_here (c ∷ (host ++ (b'/' ∷ t))))) [
  | inl e ↦ absurd (
      ground (
        arith,
        behind-slash (codes "images/") (c ∷ host) t refl
            (images-of_key (c ∷ (host ++ (b'/' ∷ t))) e),
      ))
  | inr e ↦ rw (e) (ground (arith, first_key-base host t))
]
