-- ===== src/Posts/Requests.antt =====
-- A request to PATCH /posts behind its guards: modules/posts/dto/interceptors/children.interceptor.ts,
-- the pipe of modules/posts/pipe/featured-image-validation.pipe.ts, and the service. Interceptors run
-- before pipes.
use vethealth_backend.Base.{
  Bool, not, ◌&&◌, Option, none, some, is_some, List, [], ◌∷◌, ◌++◌, first, Text, text_eq, truthy,
  if◌then◌else◌,
}
use vethealth_backend.Repository.{Repository}
use vethealth_backend.Access.{Caller}
use vethealth_backend.Posts.{
  Post, PostWhere, PostPatch, fits_post, has_id, Result, Surroundings, update,
}

-- A topic or a category with its parent.
pub record Node : Type 0 where
  pub id : Text
  pub parent : Option Text

-- `where: { id, parent: Not(IsNull()) }`
abbrev pub is_child : Text → Node → Bool
is_child k n = text_eq n.id k && is_some n.parent

-- `entity?.parent ? { id: entity.parent.id } : null`
abbrev pub parent_of_found : Option Node → Option Text
parent_of_found none = none
parent_of_found (some n) = n.parent

abbrev pub parent_of : List Node → Text → Option Text
parent_of nodes k = parent_of_found (first (is_child k) nodes)

abbrev pub add_parent : Option Text → List Text → List Text
add_parent none parents = parents
add_parent (some p) parents = p ∷ parents

-- `parentTopics.filter((id) => id !== null)`
abbrev pub parents_of : List Node → List Text → List Text
parents_of nodes [] = []
parents_of nodes (k ∷ ids) = add_parent (parent_of nodes k) (parents_of nodes ids)

-- The ids with those of their parents; none where `map` is called on what is no list.
abbrev pub with_parents : List Node → Option (List Text) → Option (List Text)
with_parents nodes none = none
with_parents nodes (some ids) = some (ids ++ parents_of nodes ids)

abbrev pub both_lists : PostPatch → Option (List Text) → Option (List Text) → Option PostPatch
both_lists p none categories = none
both_lists p (some topics) none = none
both_lists p (some topics) (some categories) =
    some (record p { topics = some topics; categories = some categories })

-- `intercept`
unfoldable pub intercept : (topics categories : List Node) → PostPatch → Option PostPatch
intercept topics categories p =
    both_lists p (with_parents topics p.topics) (with_parents categories p.categories)

abbrev is_set : Option Text → Bool
is_set none = Bool.false
is_set (some t) = truthy t

-- `FeaturedImagePipe`: whether it refuses the two images.
abbrev pub two_images : (file_id url : Option Text) → Bool
two_images file_id url = is_set file_id && is_set url

-- The answer to a request: an exception that is no HTTP one, a refusal of the validation or of the
-- pipe, both with status 400, or the answer of the service.
pub data Response : Type 0 where
  fault bad_request : Response
  answered : Result (Unit {0}) → Response

module _ {S : Type 0} (posts : Repository Post PostWhere S fits_post has_id) where
  abbrev pub behind_interceptor :
      Surroundings
      → (valid : PostPatch → Bool) (file_id : Option Text) → Option PostPatch
      → Option Caller
      → S
      → Response × S
  behind_interceptor env valid file_id none user s = (fault, s)
  behind_interceptor env valid file_id (some p) user s =
      let (r, s') = update posts env p user s in
      if not (valid p)
      then (bad_request, s)
      else if two_images file_id p.featured_image_url
      then (bad_request, s)
      else (answered r, s')

  -- The whole request; `valid` is what the validation of the body says.
  unfoldable pub patch_post :
      Surroundings
      → (valid : PostPatch → Bool) (topics categories : List Node) (file_id : Option Text)
      → PostPatch
      → Option Caller
      → S
      → Response × S
  patch_post env valid topics categories file_id p user s =
      behind_interceptor env valid file_id (intercept topics categories p) user s
