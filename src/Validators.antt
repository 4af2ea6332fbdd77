-- ===== src/Validators.antt =====
-- utils/validators/is-exist.validator.ts and is-not-exist.validator.ts: the tests of a request
-- against the rows of a table, deleted ones included where the source asks for them; and the
-- relations that a list is asked for with (is-valid-includes.validator.ts, and
-- utils/transformers/include-transform.ts, which runs before it).
pub mod Uniqueness
pub mod Includes
mod Tests
use vethealth_backend.Base.{
  ◌≡◌, Bool, true, false, not, Option, none, some, List, [], ◌∷◌, ◌++◌, Text, codes, text_eq,
  truthy, first, is_some, any, all, split, if◌then◌else◌,
}
use mathlib.Core.Option

-- `===` on ids that may be undefined.
abbrev pub same_id : Option Text → Option Text → Bool
same_id none none = true
same_id (some a) (some b) = text_eq a b
same_id _ _ = false

-- What TypeORM documents of `findOne` with a condition on one column: it is the first of the rows
-- with that value, without those that are soft-deleted or, with `withDeleted`, among all rows.
pub record Lookup (R S : Type 0) (id value : R → Text) (is_deleted : R → Bool) : Type 0 where
  pub rows : S → List R
  pub find_one : (with_deleted : Bool) → Text → S → Option R
  pub find_one-all :
      (v : Text) (s : S) → find_one true v s ≡ first (λ r. text_eq (value r) v) (rows s)
  pub find_one-live :
      (v : Text) (s : S)
      → find_one false v s
        ≡ first (λ r. if is_deleted r then false else text_eq (value r) v) (rows s)

module _ {R S : Type 0} {id value : R → Text} {is_deleted : R → Bool}
    (table : Lookup R S id value is_deleted) where
  -- `IsNotExist` in a body whose own id is `current`.
  unfoldable pub is_not_exist : (current : Option Text) → Text → S → Bool
  is_not_exist current v s =
      let entity = table.find_one true v s in
      if same_id (Option.map id entity) current then true else not (is_some entity)

  -- `IsExist` for a property of an object, such as the id of a role; a missing one is refused.
  unfoldable pub is_exist : Option Text → S → Bool
  is_exist none s = false
  is_exist (some v) s = if truthy v then is_some (table.find_one false v s) else false

-- A value of `include`; an object is its keys, whose order no part reads.
pub data Include : Type 0 where
  undefined null : Include
  string : Text → Include
  object : List Text → Include

-- `obj[key] = true`; to set the prototype to a primitive does nothing.
abbrev pub set_key : Text → List Text → List Text
set_key key obj =
    if text_eq key (codes "__proto__")
    then obj
    else if any (text_eq key) obj
    then obj
    else obj ++ (key ∷ [])

abbrev pub set_keys : List Text → List Text → List Text
set_keys [] obj = obj
set_keys (key ∷ keys) obj = set_keys keys (set_key key obj)

-- `includeStringToObjectTransform`; it throws on `undefined`.
unfoldable pub include_transform : Include → Option Include
include_transform undefined = none
include_transform null = some null
include_transform (object keys) = some (object keys)
include_transform (string t) = some (object (set_keys (split b',' t) []))

abbrev pub includes : List Text → Text → Bool
includes valid item = any (text_eq item) valid

abbrev pub every_included : List Text → List Text → Bool
every_included [] values = false
every_included (v ∷ valid) values = all (includes (v ∷ valid)) values

unfoldable pub is_valid_includes : (valid_values : List Text) → Include → Bool
is_valid_includes valid undefined = true
is_valid_includes valid null = true
is_valid_includes valid (string t) = if truthy t then every_included valid (split b',' t) else true
is_valid_includes valid (object keys) = every_included valid keys
