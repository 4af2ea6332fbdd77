-- ===== src/Access/Creation.antt =====
-- What the guard of new posts lets through.
use vethealth_backend.Base.{ℕ, ◌≡◌, ◌↔◌, false, some, List, [], ◌∷◌, arith, Text, any, ◌==◌, All}
use vethealth_backend.Users.{RoleEnum, is_admin}
use vethealth_backend.Access.{
  Caller, allow, forbidden, str, CreateBody, is_published_number, create_post_guard,
}

-- The loaded topics are objects of their own, and none of them is an object of the request body.
abbrev pub AreFresh : List ℕ → List ℕ → Type 0
AreFresh loaded given = All (λ item. any (λ x. x == item) given ≡ false) loaded

-- Topics are compared by identity, and the loaded ones are fresh objects. So a user who is no
-- administrator and has a topic can create no post: the guard raises "forbidden", whatever topics
-- the body names.
pub create_post_guard_topics :
    (c : Caller) (role : RoleEnum) (item : ℕ) (loaded given : List ℕ) (body : CreateBody)
    → is_admin role ≡ false
    → body.topics ≡ some given
    → AreFresh (item ∷ loaded) given
    → create_post_guard (some c) (some (role, item ∷ loaded)) body ≡ forbidden
unfolding create_post_guard
create_post_guard_topics c role item loaded given body r t fresh = ground arith

-- Without topics, a user who is no administrator passes the guard exactly unless the status id is
-- the number 1. Every string passes as a status id, also "1".
pub create_post_guard-eq-allow_iff :
    (c : Caller) (role : RoleEnum) (body : CreateBody)
    → is_admin role ≡ false
    → ((create_post_guard (some c) (some (role, [])) body ≡ allow)
        ↔ (is_published_number body.status ≡ false))
      × ((t : Text) → body.status ≡ some (str t) → is_published_number body.status ≡ false)
unfolding create_post_guard
create_post_guard-eq-allow_iff c role body r = ((ground arith), λ t e. ground arith)
