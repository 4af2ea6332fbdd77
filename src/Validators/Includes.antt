-- ===== src/Validators/Includes.antt =====
-- What utils/validators/is-valid-includes.validator.ts says of a text before and after
-- utils/transformers/include-transform.ts.
use vethealth_backend.Base.{
  ◌≡◌, refl, sym, inl, inr, Bool, true, false, ◌&&◌, some, List, [], ◌∷◌, ◌++◌, All, Text, codes,
  text_eq, text_eq_iff, truthy, any, all, split, arith, Bool-cases,
}
use vethealth_backend.Validators.{
  string, object, set_key, set_keys, include_transform, every_included, is_valid_includes, includes,
}

all-append_one :
    (p : Text → Bool) (obj : List Text) (k : Text) → all p (obj ++ (k ∷ [])) ≡ (all p obj && p k)
all-append_one p [] k = ground arith
all-append_one p (x ∷ obj) k = ground (arith, all-append_one p obj k)

-- A key that is there already adds no condition.
all-of_any :
    (p : Text → Bool) (obj : List Text) (k : Text)
    → any (text_eq k) obj ≡ true
    → (all p obj && p k) ≡ all p obj
all-of_any p [] k h = cc
all-of_any p (x ∷ obj) k h = elim (Bool-cases (text_eq k x)) [
  | inl e ↦ rw ((text_eq_iff k x).0 e) (ground arith)
  | inr e ↦ ground (arith, all-of_any p obj k)
]

all-set_key :
    (p : Text → Bool) (k : Text) (obj : List Text)
    → text_eq k (codes "__proto__") ≡ false
    → all p (set_key k obj) ≡ (all p obj && p k)
all-set_key p k obj h = rw h (elim (Bool-cases (any (text_eq k) obj)) [
  | inl e ↦ rw e (sym (all-of_any p obj k e))
  | inr e ↦ rw e (all-append_one p obj k)
])

all-set_keys :
    (p : Text → Bool) (keys obj : List Text)
    → All (λ k. text_eq k (codes "__proto__") ≡ false) keys
    → all p (set_keys keys obj) ≡ (all p obj && all p keys)
all-set_keys p [] obj h = ground arith
all-set_keys p (k ∷ keys) obj h =
    ground (arith, all-set_keys p keys (set_key k obj) h.1, all-set_key p k obj h.0)

every_included-set_keys :
    (valid keys : List Text)
    → All (λ k. text_eq k (codes "__proto__") ≡ false) keys
    → every_included valid (set_keys keys []) ≡ every_included valid keys
every_included-set_keys [] keys h = refl
every_included-set_keys (v ∷ valid) keys h = all-set_keys (includes (v ∷ valid)) keys [] h

-- A text that is not empty and names no `__proto__` is transformed to an object, which is accepted
-- exactly if the text is.
pub is_valid_includes-include_transform :
    (valid : List Text) (t : Text)
    → truthy t ≡ true
    → All (λ k. text_eq k (codes "__proto__") ≡ false) (split b',' t)
    → (keys : List Text) × (include_transform (string t) ≡ some (object keys))
      × (is_valid_includes valid (object keys) ≡ is_valid_includes valid (string t))
unfolding include_transform is_valid_includes
is_valid_includes-include_transform valid t e h =
    (set_keys (split b',' t) [], refl, rw e (every_included-set_keys valid (split b',' t) h))
