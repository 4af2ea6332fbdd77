-- ===== src/Topics/Visibility.antt =====
-- Which topics a reader is served, without those that `include` adds as parent or children.
use vethealth_backend.Base.{
  ℕ, zero, suc, ◌≡◌, refl, ap, sym, ◌∙◌, Bool, true, false, Option, none, some, List, [], ◌∷◌, all,
  take, drop, filter, first_sound, Text, codes, text_eq, truthy, arith, Bool-cases, Option-cases,
  inl, inr, ◌⊎◌,
}
use vethealth_backend.Repository.{Repository}
use vethealth_backend.Access.{
  Caller, caller_is_admin, get_topics_guard, Verdict, allow, deny, forbidden, unauthorized, fault,
}
use vethealth_backend.Lists.{Listing, paginated}
use vethealth_backend.Topics.{
  Topic, TopicWhere, TopicQuery, fits_topic, has_id, one_where, many_where, Answer, one, many,
  find_one, find_many_with_pagination, get_by, guarded, get_one, get_many,
}

module _ {A : Type 0} where
  all-take : (p : A → Bool) (n : ℕ) (xs : List A) → all p xs ≡ true → all p (take n xs) ≡ true
  all-take p zero xs h = refl
  all-take p (suc n) [] h = refl
  all-take p (suc n) (x ∷ xs) h = ground (arith, all-take p n xs)

  all-drop : (p : A → Bool) (n : ℕ) (xs : List A) → all p xs ≡ true → all p (drop n xs) ≡ true
  all-drop p zero xs h = h
  all-drop p (suc n) [] h = refl
  all-drop p (suc n) (x ∷ xs) h = ground (arith, all-drop p n xs)

  all-filter :
      (p q : A → Bool) (xs : List A)
      → ((x : A) → q x ≡ true → p x ≡ true)
      → all p (filter q xs) ≡ true
  all-filter p q [] h = refl
  all-filter p q (x ∷ xs) h = ground (arith, all-filter p q xs h, h x)

abbrev pub is_active : Topic → Bool
is_active t = text_eq t.status (codes "active")

-- The values that the query may have, its default among them.
abbrev pub IsStatus : Option Text → Type 0
IsStatus status = (status ≡ some (codes "active")) ⊎ (status ≡ some (codes "inactive"))

-- Who is no administrator and is let through asked for the active topics.
allowed-active :
    (user : Option Caller) (status : Option Text)
    → IsStatus status
    → caller_is_admin user ≡ false
    → get_topics_guard status user ≡ allow
    → status ≡ some (codes "active")
unfolding get_topics_guard codes text_eq
allowed-active user status (inl e) h g = e
allowed-active user status (inr e) h g = cc (rw (e, h) at g)

module _ {S : Type 0} (like : Text → Text → Bool)
    (topics : Repository Topic TopicWhere S (fits_topic like) has_id)
    (table : Listing Topic TopicWhere S (fits_topic like) topics.rows) where
  fits-is_active :
      (w : TopicWhere) (t : Topic)
      → w.status ≡ some (codes "active")
      → fits_topic like w t ≡ true
      → is_active t ≡ true
  fits-is_active w t e h = ground (arith, e)

  -- What is shown in an answer is active.
  abbrev pub ShowsActive : Answer → Type 0
  ShowsActive (one t) = is_active t ≡ true
  ShowsActive (many p) = all is_active p.items ≡ true
  ShowsActive _ = Unit

  find_one-ShowsActive :
      (id slug : Option Text) (q : TopicQuery) (s : S)
      → q.status ≡ some (codes "active")
      → ShowsActive (find_one like topics table id slug q s)
  unfolding find_one
  find_one-ShowsActive id slug q s e =
      elim (Option-cases (topics.find_one (one_where id slug q.status) s)) [
        | inl f ↦ rw f tt
        | inr (t, f) ↦ rw f (
            fits-is_active (one_where id slug q.status) t e (
              first_sound (fits_topic like (one_where id slug q.status)) (topics.rows s) t
                (sym (topics.find_one-rows (one_where id slug q.status) s) ∙ f)))
      ]

  find_many-is_active :
      (q : TopicQuery) (s : S)
      → q.status ≡ some (codes "active")
      → all is_active (find_many_with_pagination like topics table q s).items ≡ true
  unfolding find_many_with_pagination paginated
  find_many-is_active q s e =
      ap (all is_active) (table.find_and_count-items _ s)
      ∙ all-take is_active _ _ (
          all-drop is_active _ _ (
            table.sorted-all _ is_active _
            ∙ all-filter is_active (fits_topic like (many_where q)) (topics.rows s)
                (λ t h. fits-is_active (many_where q) t e h)))

  get_by-ShowsActive :
      (slug : Option Text) (q : TopicQuery) (s : S)
      → q.status ≡ some (codes "active")
      → ShowsActive (get_by like topics table slug q s)
  get_by-ShowsActive none q s e = find_many-is_active q s e
  get_by-ShowsActive (some slug) q s e = elim (Bool-cases (truthy slug)) [
    | inl t ↦ rw t (find_one-ShowsActive none (some slug) q s e)
    | inr f ↦ rw f (find_many-is_active q s e)
  ]

  guarded-ShowsActive :
      (v : Verdict) (a : Answer)
      → (v ≡ allow → ShowsActive a)
      → ShowsActive (guarded like topics table v a)
  guarded-ShowsActive allow a h = h refl
  guarded-ShowsActive deny a h = tt
  guarded-ShowsActive forbidden a h = tt
  guarded-ShowsActive Verdict.not_found a h = tt
  guarded-ShowsActive unauthorized a h = tt
  guarded-ShowsActive fault a h = tt

  -- The topic by its id or slug, or each one of a page, that a reader who is no administrator is
  -- served is itself active, with each value that the status of a query may have.
  pub get-ShowsActive :
      (user : Option Caller) (id : Text) (q : TopicQuery) (s : S)
      → IsStatus q.status
      → caller_is_admin user ≡ false
      → ShowsActive (get_one like topics table user id q s)
        × ShowsActive (get_many like topics table user q s)
  unfolding get_one get_many
  get-ShowsActive user id q s valid h = (
    guarded-ShowsActive (get_topics_guard q.status user) _
        (λ g. find_one-ShowsActive (some id) none q s (allowed-active user q.status valid h g)),
    guarded-ShowsActive (get_topics_guard q.status user) _
        (λ g. get_by-ShowsActive q.slug q s (allowed-active user q.status valid h g)),
  )
