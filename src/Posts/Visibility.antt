-- ===== src/Posts/Visibility.antt =====
-- Which posts a reader sees.
use vethealth_backend.Base.{
  ◌≡◌, ◌↔◌, ◌⊎◌, Bool, true, false, ◌&&◌, Option, none, some, arith, Text, codes, any,
}
use vethealth_backend.Repository.{Repository}
use vethealth_backend.Access.{Caller, caller_is_admin}
use vethealth_backend.Posts.{
  Post, PostWhere, fits_post, has_id, is_published, is_owner, ok, err, not_found, find_one,
  PostQuery, ListWhere, list_where,
}

-- A post that a reader may see: it is published, or the reader is an administrator or its author.
abbrev pub IsVisible : Option Caller → Post → Type 0
IsVisible user p =
    (is_published p.status ≡ true) ⊎ ((caller_is_admin user ≡ true) ⊎ (is_owner user p ≡ true))

module _ {S : Type 0} (posts : Repository Post PostWhere S fits_post has_id) where
  -- A single post is returned exactly when it is stored and visible to the reader. In every other
  -- case the answer is "not found", so a draft cannot be told from a post that is not there.
  pub find_one-IsVisible_iff :
      (w : PostWhere) (user : Option Caller) (s : S)
      → ((p : Post)
          → (find_one posts w user s ≡ ok p) ↔ ((posts.find_one w s ≡ some p) × IsVisible user p))
        × ((p : Post)
            → posts.find_one w s ≡ some p
            → ¬ IsVisible user p
            → find_one posts w user s ≡ err not_found)
        × (posts.find_one w s ≡ none → find_one posts w user s ≡ err not_found)
  unfolding find_one
  find_one-IsVisible_iff w user s =
      (λ p. (λ e. ground arith, λ (f, v). ground arith), λ p f v. ground arith, λ f. ground arith)

-- How the database reads the conditions of a list, one test for each.
pub record Matcher : Type 0 where
  pub title_like : Text → Post → Bool
  pub author_firstname : Text → Post → Bool
  pub author_id : Text → Post → Bool
  pub topic_slug : Text → Post → Bool
  pub category_slug : Text → Post → Bool
  pub status_name : Text → Post → Bool

-- The documented meaning of the two conditions that decide who sees a post.
pub record IsMatcher (m : Matcher) : Type 0 where
  pub of_author : (c : Caller) (p : Post) → m.author_id c.id p ≡ is_owner (some c) p
  pub of_status : (p : Post) → m.status_name (codes "Published") p ≡ is_published p.status

abbrev meets : (Text → Post → Bool) → Option Text → Post → Bool
meets test none p = true
meets test (some t) p = test t p

-- A condition that is not given tests nothing.
abbrev pub fits_list : Matcher → ListWhere → Post → Bool
fits_list m w p =
    meets m.title_like w.title_like p
    && (meets m.author_firstname w.author_firstname p
        && (meets m.author_id w.author_id p
            && (meets m.topic_slug w.topic_slug p
                && (meets m.category_slug w.category_slug p
                    && meets m.status_name w.status_name p))))

module _ (m : Matcher) (sound : IsMatcher m) where
  -- Every post of a list is visible to the reader, whatever the query asks for.
  pub list_where-IsVisible :
      (q : PostQuery) (user : Option Caller) (p : Post)
      → any (λ w. fits_list m w p) (list_where q user) ≡ true
      → IsVisible user p
  unfolding list_where
  list_where-IsVisible q none p h = ground (arith, sound.of_status p)
  list_where-IsVisible q (some c) p h = ground (arith, sound.of_status p, sound.of_author c p)

  -- The query with no condition lists every visible post to a reader who is no administrator.
  pub list_where_complete :
      (user : Option Caller) (p : Post)
      → caller_is_admin user ≡ false
      → IsVisible user p
      → any
          (λ w. fits_list m w p)
          (list_where
            (record { title = none; author = none; topic = none; category = none; status = none })
            user)
        ≡ true
  unfolding list_where
  list_where_complete none p a v = ground (arith, sound.of_status p)
  list_where_complete (some c) p a v = ground (arith, sound.of_status p, sound.of_author c p)
