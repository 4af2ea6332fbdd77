-- ===== src/Auth/Sessions.antt =====
-- modules/session: the session entity and `SessionService`.
use vethealth_backend.Base.{
  Bool, true, false, not, ◌&&◌, Option, none, some, [], Text, text_eq, truthy, if◌then◌else◌,
}
use vethealth_backend.Users.{asks}
use vethealth_backend.Repository.{Repository}

-- A row of `session`; the user stands by its id, and is loaded where the service reads it.
pub record Session : Type 0 where
  pub id : Text
  pub user : Text
  pub hash : Text

-- A condition on an id: a value, or `Not(value)`.
pub data IdCondition : Type 0 where
  equal not_equal : Text → IdCondition

pub record SessionWhere : Type 0 where
  pub id : Option IdCondition
  pub user : Option Text

abbrev pub meets : Option IdCondition → Text → Bool
meets none t = true
meets (some (equal k)) t = text_eq t k
meets (some (not_equal k)) t = not (text_eq t k)

abbrev pub fits_session : SessionWhere → Session → Bool
fits_session w s = meets w.id s.id && asks w.user s.user

abbrev pub has_id : Text → Session → Bool
has_id k s = text_eq s.id k

-- The argument of `softDelete`.
pub record Criteria : Type 0 where
  pub id : Option Text
  pub user : Option Text
  pub exclude_id : Option Text

-- A string that is missing or empty is falsy.
abbrev truthy_option : Option Text → Bool
truthy_option none = false
truthy_option (some t) = truthy t

abbrev or_empty : Option Text → Text
or_empty none = []
or_empty (some t) = t

-- `criteria.id ? criteria.id : excludeId ? Not(excludeId) : undefined`
unfoldable pub delete_where : Criteria → SessionWhere
delete_where c = record {
  id =
      if truthy_option c.id
      then some (equal (or_empty c.id))
      else if truthy_option c.exclude_id
      then some (not_equal (or_empty c.exclude_id))
      else none;
  user = c.user;
}

module _ {S : Type 0} (sessions : Repository Session SessionWhere S fits_session has_id) where
  -- `findOne({ id })`
  abbrev pub find_one : Text → S → Option Session
  find_one k s = sessions.find_one (record { id = some (equal k); user = none }) s

  -- `create({ user, hash })`; the database draws the id.
  unfoldable pub create : Text → Text → Text → S → Session × S
  create new_id user hash s =
      let row : Session = record { id = new_id; user = user; hash = hash } in
      (row, sessions.insert row s)

  -- `update(id, { hash })`
  unfoldable pub update : Text → Text → S → S
  update k hash s = sessions.update k (λ r. record r { hash = hash }) s

  unfoldable pub soft_delete : Criteria → S → S
  unfolding delete_where
  soft_delete c s = sessions.remove (delete_where c) s
