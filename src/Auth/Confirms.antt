-- ===== src/Auth/Confirms.antt =====
-- modules/confirm: the confirmation entity and `ConfirmService`.
use vethealth_backend.Base.{ℕ, Bool, ◌&&◌, Option, none, some, Text, text_eq}
use vethealth_backend.Users.{asks}
use vethealth_backend.Repository.{Repository}

-- A row of `confirm`; times are milliseconds since the epoch.
pub record Confirm : Type 0 where
  pub id : Text
  pub hash : Text
  pub user : Text
  pub expires_in : ℕ

pub record ConfirmWhere : Type 0 where
  pub id : Option Text
  pub hash : Option Text

abbrev pub fits_confirm : ConfirmWhere → Confirm → Bool
fits_confirm w c = asks w.id c.id && asks w.hash c.hash

abbrev pub has_id : Text → Confirm → Bool
has_id k c = text_eq c.id k

module _ {C : Type 0} (confirms : Repository Confirm ConfirmWhere C fits_confirm has_id) where
  -- `findOne({ hash })`
  abbrev pub find_one : Text → C → Option Confirm
  find_one hash s = confirms.find_one (record { id = none; hash = some hash }) s

  -- `create({ hash, user, expiresIn })`; the database draws the id.
  unfoldable pub create : Text → Text → Text → ℕ → C → C
  create new_id hash user expires_in s =
      confirms.insert (record { id = new_id; hash = hash; user = user; expires_in = expires_in }) s

  -- `delete(id)`
  unfoldable pub delete : Text → C → C
  delete k s = confirms.remove (record { id = some k; hash = none }) s
