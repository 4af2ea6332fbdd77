-- ===== src/Posts/Mutation.antt =====
-- Who changes and deletes posts, and what a failed request leaves behind.
use vethealth_backend.Base.{
  ℕ, ◌↔◌, ◌≡◌, refl, subst, ap, sym, ◌∙◌, ◌⊎◌, inl, inr, true, false, not, Option, none, some,
  arith, Text, text_eq_iff, filter, first_sound, Option-cases, Bool-cases,
}
use mathlib.Core.Option
use mathlib.Core.Option.{some-injective}
use vethealth_backend.Repository.{Repository}
use vethealth_backend.Repository.Rows.{any_of_first, rewrite, first-update_rows}
use vethealth_backend.Access.{Caller, JsId, num, str, caller_is_admin}
use vethealth_backend.Posts.{
  Post, PostWhere, PostPatch, PostStatusEnum, published, draft, on_review, fits_post, has_id, by_id,
  is_published, is_owner, Result, ok, err, Error, not_found, wants_to_publish, Surroundings,
  patched, update, soft_delete,
}

eq-published : (x : PostStatusEnum) → is_published x ≡ true → x ≡ published
eq-published published h = refl
eq-published draft h = cc
eq-published on_review h = cc

Result-cases : (r : Result (Unit {0})) → ((x : Error) × (r ≡ err x)) ⊎ (r ≡ ok tt)
Result-cases (err x) = inl (x, refl)
Result-cases (ok tt) = inr refl

module _ {S : Type 0} (posts : Repository Post PostWhere S fits_post has_id) where
  -- The post is there, and the caller is an administrator or its author.
  pub record IsMutable (k : Text) (user : Option Caller) (s : S) (p : Post) : Type 0 where
    pub found : posts.find_one (by_id k) s ≡ some p
    pub right : (caller_is_admin user ≡ true) ⊎ (is_owner user p ≡ true)

  pub update_lem :
      (env : Surroundings) (patch : PostPatch) (user : Option Caller) (s : S)
      → (update posts env patch user s).0 ≡ ok tt
      → (p : Post) × IsMutable patch.id user s p
        × ((caller_is_admin user ≡ true)
            ⊎ ((is_published p.status ≡ true) ⊎ (wants_to_publish env.number patch.status ≡ false)))
        × ((update posts env patch user s).1 ≡ posts.update patch.id (patched env patch) s)
  unfolding update
  update_lem env patch user s e = elim (Option-cases (posts.find_one (by_id patch.id) s)) [
    | inl f ↦ absurd (ground arith)
    | inr (p, f) ↦ (p, record { found = f; right = ground arith }, ground arith, ground arith)
  ]

  -- An update that is refused writes nothing, and so does a deletion; it is "not found" exactly for
  -- a post that is not there.
  pub refused_atomic :
      (env : Surroundings) (patch : PostPatch) (user : Option Caller) (s : S) (x : Error)
      → ((update posts env patch user s).0 ≡ err x → (update posts env patch user s).1 ≡ s)
        × ((soft_delete posts patch.id user s).0 ≡ err x
            → (soft_delete posts patch.id user s).1 ≡ s)
        × (((update posts env patch user s).0 ≡ err not_found)
            ↔ (posts.find_one (by_id patch.id) s ≡ none))
        × (((soft_delete posts patch.id user s).0 ≡ err not_found)
            ↔ (posts.find_one (by_id patch.id) s ≡ none))
  unfolding update soft_delete
  refused_atomic env patch user s x =
      (λ e. ground arith, λ e. ground arith, (ground arith), (ground arith))

  -- A deletion succeeds exactly for the author and the administrators, and then removes the rows
  -- with the id and no other.
  pub soft_delete-IsMutable_iff :
      (k : Text) (user : Option Caller) (s : S)
      → (((soft_delete posts k user s).0 ≡ ok tt) ↔ ((p : Post) × IsMutable k user s p))
        × ((soft_delete posts k user s).0 ≡ ok tt
            → posts.rows (soft_delete posts k user s).1
              ≡ filter (λ p. not (fits_post (by_id k) p)) (posts.rows s))
  unfolding soft_delete
  soft_delete-IsMutable_iff k user s = (
    (
      λ e. elim (Option-cases (posts.find_one (by_id k) s)) [
        | inl f ↦ absurd (ground arith)
        | inr (p, f) ↦ (p, record { found = f; right = ground arith })
      ],
      λ (p, h). ground arith,
    ),
    λ e. ground (arith, posts.rows-remove (by_id k) s),
  )

  -- An id is the number 1: as it stands, or as `Number` reads the text.
  abbrev pub IsOne : (Text → Option ℕ) → JsId → Type 0
  IsOne number (num n) = n ≡ 1
  IsOne number (str t) = number t ≡ some 1

  -- Every id for which the database finds the published status is the number 1.
  abbrev pub ReadsIds : Surroundings → Type 0
  ReadsIds env = (id : JsId) → env.status_row id ≡ published → IsOne env.number id

  IsOne-wants :
      (number : Text → Option ℕ) (id : JsId)
      → IsOne number id
      → wants_to_publish number (some id) ≡ true
  IsOne-wants number (num n) h = ground arith
  IsOne-wants number (str t) h = ground arith

  patched-published :
      (env : Surroundings) (patch : PostPatch) (p : Post)
      → ReadsIds env
      → wants_to_publish env.number patch.status ≡ false
      → is_published (patched env patch p).status ≡ true
      → is_published p.status ≡ true
  patched-published env patch p reads w h = elim (Option-cases patch.status) [
    | inl e ↦ ground arith
    | inr (id, e) ↦
        let row : env.status_row id ≡ published = eq-published (env.status_row id) (rw e at h) in
        cc (
          IsOne-wants env.number id (reads id row),
          subst (λ o. wants_to_publish env.number o ≡ false) e w,
        )
  ]

  pub found-id : (k : Text) (s : S) (p : Post) → posts.find_one (by_id k) s ≡ some p → p.id ≡ k
  found-id k s p e =
      let h =
        first_sound (fits_post (by_id k)) (posts.rows s) p
          (sym (posts.find_one-rows (by_id k) s) ∙ e) in
      (text_eq_iff p.id k).0 (ground arith)

  abbrev rewritten_of : Surroundings → PostPatch → Option Post → Option Post
  rewritten_of env patch = Option.map (rewrite (has_id patch.id) (patched env patch))

  -- An update finds every post where it was, and the changed one as the patch leaves it.
  pub find_one-update :
      (env : Surroundings) (patch : PostPatch) (s : S) (p : Post) (j : Text)
      → posts.find_one (by_id patch.id) s ≡ some p
      → posts.find_one (by_id j) (posts.update patch.id (patched env patch) s)
        ≡ rewritten_of env patch (posts.find_one (by_id j) s)
  find_one-update env patch s p j f =
      rw
        (
          posts.find_one-rows (by_id j) (posts.update patch.id (patched env patch) s),
          posts.rows-update patch.id (patched env patch) s (
              any_of_first (fits_post (by_id patch.id)) (has_id patch.id) (posts.rows s) p
                (sym (posts.find_one-rows (by_id patch.id) s) ∙ f)
                ((text_eq_iff p.id patch.id).1 (found-id patch.id s p f))),
          posts.find_one-rows (by_id j) s,
        )
        (first-update_rows (fits_post (by_id j)) (has_id patch.id) (patched env patch)
          (posts.rows s) (λ r. refl))

  rewritten :
      (env : Surroundings) (patch : PostPatch) (user : Option Caller) (s : S) (j : Text)
      (p q p' : Post)
      → ReadsIds env
      → caller_is_admin user ≡ false
      → IsMutable patch.id user s p
      → (caller_is_admin user ≡ true)
        ⊎ ((is_published p.status ≡ true) ⊎ (wants_to_publish env.number patch.status ≡ false))
      → posts.find_one (by_id j) s ≡ some q
      → rewrite (has_id patch.id) (patched env patch) q ≡ p'
      → is_published p'.status ≡ true
      → is_published q.status ≡ true
  rewritten env patch user s j p q p' reads a m right f e h =
      elim (Bool-cases (has_id patch.id q)) [
        | inr other ↦ ground arith
        | inl own ↦
            let at : j ≡ patch.id = sym (found-id j s q f) ∙ (text_eq_iff q.id patch.id).0 own in
            let same : p ≡ q =
              some-injective p q
                (sym m.found ∙ subst (λ k. posts.find_one (by_id k) s ≡ some q) at f) in
            ground (arith, patched-published env patch q reads)
      ]

  after_update :
      (env : Surroundings) (patch : PostPatch) (user : Option Caller) (s : S) (j : Text)
      (p p' : Post)
      → ReadsIds env
      → caller_is_admin user ≡ false
      → IsMutable patch.id user s p
      → (caller_is_admin user ≡ true)
        ⊎ ((is_published p.status ≡ true) ⊎ (wants_to_publish env.number patch.status ≡ false))
      → rewritten_of env patch (posts.find_one (by_id j) s) ≡ some p'
      → is_published p'.status ≡ true
      → (q : Post) × (posts.find_one (by_id j) s ≡ some q) × (is_published q.status ≡ true)
  after_update env patch user s j p p' reads a m right e h =
      elim (Option-cases (posts.find_one (by_id j) s)) [
        | inl f ↦ cc (ap (rewritten_of env patch) f, e)
        | inr (q, f) ↦ (
          q,
          f,
          rewritten env patch user s j p q p' reads a m right f
              (some-injective _ _ (sym (ap (rewritten_of env patch) f) ∙ e)) h,
        )
      ]

  -- A request to update a post by someone who is no administrator publishes nothing: a post that is
  -- published afterwards was published before. Every id for which the database finds the published
  -- status is the number 1, as a number or as `Number` reads the text.
  pub update_publishes_nothing :
      (env : Surroundings) (patch : PostPatch) (user : Option Caller) (s : S) (j : Text) (p' : Post)
      → ReadsIds env
      → caller_is_admin user ≡ false
      → posts.find_one (by_id j) (update posts env patch user s).1 ≡ some p'
      → is_published p'.status ≡ true
      → (p : Post) × (posts.find_one (by_id j) s ≡ some p) × (is_published p.status ≡ true)
  update_publishes_nothing env patch user s j p' reads a e h =
      elim (Result-cases (update posts env patch user s).0) [
        | inl (x, f) ↦ (
          p',
          subst (λ d. posts.find_one (by_id j) d ≡ some p')
              ((refused_atomic env patch user s x).0 f) e,
          h,
        )
        | inr f ↦
            let (p, m, right, same) = update_lem env patch user s f in
            after_update env patch user s j p p' reads a m right
              (sym (find_one-update env patch s p j m.found)
                ∙ subst (λ d. posts.find_one (by_id j) d ≡ some p') same e)
              h
      ]
