-- ===== src/Posts/Parents.antt =====
-- Requests to update posts, with the parents of topics and categories.
use vethealth_backend.Base.{
  ◌≡◌, ◌≢◌, inl, inr, Bool, true, Option, none, some, List, ◌++◌, any, Text, text_eq, Bool-cases,
}
use vethealth_backend.Repository.{Repository}
use vethealth_backend.Access.{Caller}
use vethealth_backend.Posts.{
  Post, PostWhere, PostPatch, fits_post, has_id, by_id, Result, ok, Surroundings,
}
use vethealth_backend.Posts.Requests.{
  Node, parent_of, parents_of, two_images, Response, fault, bad_request, answered,
  behind_interceptor,
}

bad_request-ne_fault : bad_request ≢ fault
bad_request-ne_fault e = cc

answered-ne_fault : {r : Result (Unit {0})} → answered r ≢ fault
answered-ne_fault e = cc

none-ne_some : {ids : List Text} → none ≢ some ids
none-ne_some e = cc

abbrev result_of : Response → Result (Unit {0})
result_of (answered r) = r
result_of _ = ok tt

module _ {S : Type 0} (posts : Repository Post PostWhere S fits_post has_id) where
  -- What a request that is accepted leaves of the post.
  pub record IsPatched (topics categories : List Node) (p : PostPatch) (s' : S) : Type 0 where
    pub topic_ids : List Text
    pub category_ids : List Text
    pub topics_given : p.topics ≡ some topic_ids
    pub categories_given : p.categories ≡ some category_ids
    pub post : Post
    pub stored : posts.find_one (by_id p.id) s' ≡ some post
    pub topics_stored : post.topics ≡ topic_ids ++ parents_of topics topic_ids
    pub categories_stored : post.categories ≡ category_ids ++ parents_of categories category_ids
    pub parent_stored :
        (k q : Text)
        → any (text_eq k) topic_ids ≡ true
        → parent_of topics k ≡ some q
        → any (text_eq q) post.topics ≡ true

  behind_interceptor-ne_fault :
      (env : Surroundings) (valid : PostPatch → Bool) (file_id : Option Text) (q : PostPatch)
      (user : Option Caller) (s : S)
      → (behind_interceptor posts env valid file_id (some q) user s).0 ≢ fault
  behind_interceptor-ne_fault env valid file_id q user s h = elim (Bool-cases (valid q)) [
    | inr e ↦ absurd (bad_request-ne_fault (rw e at h))
    | inl e ↦ elim (Bool-cases (two_images file_id q.featured_image_url)) [
      | inl f ↦ absurd (bad_request-ne_fault (rw (e, f) at h))
      | inr f ↦ absurd (answered-ne_fault (rw (e, f) at h))
    ]
  ]
