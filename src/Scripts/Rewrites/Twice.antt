-- ===== src/Scripts/Rewrites/Twice.antt =====
-- A text that is rewritten twice.
use vethealth_backend.Base.{
  ◌≡◌, ◌∙◌, refl, sym, ap, subst, Bool, true, false, not, some, [], ◌∷◌, ◌++◌, Text, codes, arith,
  all, is_space, Bool-cases, Option-cases, inl, inr,
}
use vethealth_backend.Scripts.References.{
  is_allowed, behind, key_here, allowed_part, or_self, starts_allowed,
}
use vethealth_backend.Scripts.Keys.{key_here-allowed_part, allowed_part-allowed}
use vethealth_backend.Scripts.Rewrites.{
  optional, scheme_rest, first_key, match_here, rewrite_image_refs,
}
use vethealth_backend.Scripts.Rewrites.Starts.{
  behind_cons, behind_nil, none-ne_some, match_here-cases,
}
use vethealth_backend.Scripts.Rewrites.Matches.{
  rewritten, rest_of, rewritten-none, rewritten-some, false-ne_true, or_true,
}
use vethealth_backend.Scripts.Rewrites.Schemes.{match_here-rewritten}
use vethealth_backend.Scripts.Rewrites.Bases.{has_word, IsBase, first_key-base}

-- What a match finds is a key.
IsKey : Text → Type 0
IsKey k = (key_here k ≡ true) × (all is_allowed k ≡ true)

some-eq : (s t : Text) → some s ≡ some t → s ≡ t
some-eq s t e = ap (or_self s) e

allowed_part-IsKey : (t k : Text) → key_here t ≡ true → some (allowed_part t) ≡ some k → IsKey k
unfolding IsKey
allowed_part-IsKey t k h e =
    subst IsKey (some-eq (allowed_part t) k e) (key_here-allowed_part t h, allowed_part-allowed t)

first_key-IsKey : (t k : Text) → first_key t ≡ some k → IsKey k
first_key-IsKey [] k h = absurd (none-ne_some h)
first_key-IsKey (c ∷ t) k h = elim (Bool-cases (key_here (c ∷ t))) [
  | inl e ↦ allowed_part-IsKey (c ∷ t) k e (rw e at h)
  | inr e ↦ elim (Bool-cases (is_allowed c)) [
    | inl a ↦ first_key-IsKey t k (rw (e, a) at h)
    | inr a ↦ absurd (none-ne_some (rw (e, a) at h))
  ]
]

match_here-IsKey : (t k : Text) → match_here t ≡ some k → IsKey k
match_here-IsKey t k h = elim (match_here-cases t k h) [
  | inl (u, e, f) ↦ first_key-IsKey u k f
  | inr e ↦
      let u = optional (codes "/") t in
      elim (Bool-cases (key_here u)) [
        | inl f ↦ allowed_part-IsKey u k f (rw f at e)
        | inr f ↦ absurd (none-ne_some (rw f at e))
      ]
]

-- What follows a match: nothing, or a character that is not allowed.
abbrev pub ends : Text → Bool
ends [] = true
ends (c ∷ t) = not (is_allowed c)

allowed_part-append :
    (k t : Text) → all is_allowed k ≡ true → ends t ≡ true → allowed_part (k ++ t) ≡ k
allowed_part-append [] [] a e = refl
allowed_part-append [] (c ∷ t) a e = ground arith
allowed_part-append (c ∷ k) t a e = ground (arith, allowed_part-append k t)

behind-append : (word s t r : Text) → behind word s ≡ some r → behind word (s ++ t) ≡ some (r ++ t)
behind-append [] s t r h = ap (λ o. some (or_self s o ++ t)) h
behind-append (c ∷ word) [] t r h = absurd (behind_nil c word r h)
behind-append (c ∷ word) (d ∷ s) t r h =
    let (f, g) = behind_cons c word d s r h in rw (f, behind-append word s t r g) refl

starts_allowed-append :
    (word s t : Text)
    → starts_allowed (behind word s) ≡ true
    → starts_allowed (behind word (s ++ t)) ≡ true
starts_allowed-append word s t h = elim (Option-cases (behind word s)) [
  | inl e ↦ absurd (false-ne_true (rw e at h))
  | inr ([], e) ↦ absurd (false-ne_true (rw e at h))
  | inr (c ∷ r, e) ↦ rw (behind-append word s t (c ∷ r) e) (rw e at h)
]

key_here-append : (s t : Text) → key_here s ≡ true → key_here (s ++ t) ≡ true
unfolding key_here
key_here-append s t h = elim (Bool-cases (starts_allowed (behind (codes "images/posts/") s))) [
  | inl e ↦ rw (starts_allowed-append (codes "images/posts/") s t e) refl
  | inr e ↦
      rw (starts_allowed-append (codes "images/topics/") s t (rw e at h))
        (or_true (starts_allowed (behind (codes "images/posts/") (s ++ t))))
]

module _ (b : Text) where
  ends-rest_of : (t : Text) → ends (rest_of b t) ≡ true
  ends-rest_of [] = refl
  ends-rest_of (c ∷ t) = ground (arith, ends-rest_of t)

  rest_of-append : (s t : Text) → all is_allowed s ≡ true → rest_of b (s ++ t) ≡ rest_of b t
  rest_of-append [] t a = refl
  rest_of-append (c ∷ s) t a = ground (arith, rest_of-append s t)

  module _ (host : Text) (hs : (t : Text) → scheme_rest (104 ∷ (b ++ t)) ≡ some (host ++ t))
      (ab : all is_allowed b ≡ true) (ah : all is_allowed host ≡ true)
      (no : has_word (codes "images/") (host ++ (b'/' ∷ [])) ≡ false) where
    -- A reference that has been rewritten is a match with the same key.
    match_here-base :
        (k t : Text)
        → IsKey k
        → ends t ≡ true
        → match_here (104 ∷ (b ++ (b'/' ∷ (k ++ t)))) ≡ some k
    unfolding match_here IsKey
    match_here-base k t (h, a) e =
        let key : key_here (k ++ t) ≡ true = key_here-append k t h in
        rw
          (
            hs (b'/' ∷ (k ++ t)),
            first_key-base host (k ++ t) ah no key,
            allowed_part-append k t a e,
          )
          refl

    rest_of-base : (k t : Text) → IsKey k → rest_of b (b ++ (b'/' ∷ (k ++ t))) ≡ rest_of b t
    unfolding IsKey is_space
    rest_of-base k t (h, a) = rest_of-append b (b'/' ∷ (k ++ t)) ab ∙ rest_of-append k t a

    twice :
        (t : Text)
        → (rewritten b (rewritten b t) ≡ rewritten b t) × (rest_of b (rest_of b t) ≡ rest_of b t)
    twice [] = (refl, refl)
    twice (c ∷ t) =
        let (f, r) = twice t in
        (
          elim (Option-cases (match_here (c ∷ t))) [
            | inl e ↦
                ap (rewritten b) (rewritten-none b c t e)
                ∙ (rewritten-none b c (rewritten b t) (match_here-rewritten b c t e)
                    ∙ (ap (λ u. c ∷ u) f ∙ sym (rewritten-none b c t e)))
            | inr (k, e) ↦
                let key = match_here-IsKey (c ∷ t) k e in
                let x = rest_of b t in
                ap (rewritten b) (rewritten-some b c t k e)
                ∙ (rewritten-some b 104 (b ++ (b'/' ∷ (k ++ x))) k
                      (match_here-base k x key (ends-rest_of t))
                    ∙ (ap (λ u. 104 ∷ (b ++ (b'/' ∷ (k ++ u)))) (rest_of-base k x key ∙ r)
                        ∙ sym (rewritten-some b c t k e)))
          ],
          elim (Bool-cases (is_allowed c)) [
            | inl a ↦ rw a r
            | inr a ↦ rw (a, a) (ap (λ u. c ∷ u) f)
          ],
        )

-- A text whose references to images are rewritten stays as it is when they are rewritten again with
-- the same base. The base is an address with `http` or `https`, has only characters that references
-- may have, and does not name `images/` itself.
pub rewrite_image_refs_twice :
    (public_base value : Text)
    → IsBase public_base
    → rewrite_image_refs (rewrite_image_refs value public_base) public_base
      ≡ rewrite_image_refs value public_base
unfolding rewrite_image_refs scheme_rest codes is_space
rewrite_image_refs_twice public_base value base = elim base.scheme [
  | inl e ↦
      let b = codes "ttp://" ++ base.host in
      rw e (twice b base.host (λ t. refl) base.allowed base.allowed base.no_images value).0
  | inr e ↦
      let b = codes "ttps://" ++ base.host in
      rw e (twice b base.host (λ t. refl) base.allowed base.allowed base.no_images value).0
]
