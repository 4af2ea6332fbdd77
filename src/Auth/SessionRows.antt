-- ===== src/Auth/SessionRows.antt =====
-- What the table of sessions is after a refresh and after a deletion.
use mathlib.Core.Path.{fun_ext}
use vethealth_backend.Base.{
  Option-cases, any, [], ◌∷◌, inl, inr, ◌≡◌, refl, ap, ◌≢◌, ◌∙◌, sym, Bool, true, false, not, some,
  none, arith, Text, truthy, text_eq, text_eq_iff, filter, first_sound, first-filter-none,
  Bool-cases,
}
use mathlib.Core.Option
use vethealth_backend.Repository.{Repository, update_rows}
use vethealth_backend.Repository.Rows.{any_of_first, rewrite, first-update_rows, filter-update_rows}
use vethealth_backend.Auth.{Services, Env, Db}
use vethealth_backend.Auth.Sessions
use vethealth_backend.Auth.Sessions.{Session, SessionWhere, fits_session, equal, has_id}

abbrev pub id_where : Text → SessionWhere
id_where k = record { id = some (equal k); user = none }

abbrev pub other_than : Text → Session → Bool
other_than k s = not (has_id k s)

-- The text of two is not the same.
pub text_eq_of_ne : (s t : Text) → s ≢ t → text_eq s t ≡ false
text_eq_of_ne s t h = elim (Bool-cases (text_eq s t)) [
  | inl e ↦ absurd (h ((text_eq_iff s t).0 e))
  | inr e ↦ e
]

-- A deletion by an id that is given.
pub soft_delete-id :
    {S : Type 0} (sessions : Repository Session SessionWhere S fits_session has_id) (k : Text)
    (s : S)
    → truthy k ≡ true
    → Sessions.soft_delete sessions (record { id = some k; user = none; exclude_id = none }) s
      ≡ sessions.remove (id_where k) s
unfolding Sessions.soft_delete
soft_delete-id sessions [] s t = cc
soft_delete-id sessions (c ∷ k) s t = refl

pub other_than-fits : (k : Text) (r : Session) → not (fits_session (id_where k) r) ≡ other_than k r
other_than-fits k r = ground arith

abbrev pub set_hash : Text → Session → Session
set_hash hash r = record r { hash = hash }

module _ {U S C : Type 0} (svc : Services U S C) where
  abbrev pub rehashed : Env → Text → Db U S C → Db U S C
  rehashed env k db = record db {
    sessions = Sessions.update svc.sessions k env.random_hash db.sessions;
  }

  abbrev pub revoked : Text → Db U S C → Db U S C
  revoked k db = record db { sessions = svc.sessions.remove (id_where k) db.sessions }

  pub found-id :
      (db : Db U S C) (k : Text) (s : Session)
      → Sessions.find_one svc.sessions k db.sessions ≡ some s
      → s.id ≡ k
  found-id db k s e =
      let h =
        first_sound (fits_session (id_where k)) (svc.sessions.rows db.sessions) s
          (sym (svc.sessions.find_one-rows (id_where k) db.sessions) ∙ e) in
      (text_eq_iff s.id k).0 (ground arith)

  pub has_row :
      (db : Db U S C) (k : Text) (s : Session)
      → Sessions.find_one svc.sessions k db.sessions ≡ some s
      → any (has_id k) (svc.sessions.rows db.sessions) ≡ true
  has_row db k s e =
      any_of_first (fits_session (id_where k)) (has_id k) (svc.sessions.rows db.sessions) s
        (sym (svc.sessions.find_one-rows (id_where k) db.sessions) ∙ e)
        ((text_eq_iff s.id k).1 (found-id db k s e))

  pub rows-rehashed :
      (env : Env) (db : Db U S C) (k : Text) (s : Session)
      → Sessions.find_one svc.sessions k db.sessions ≡ some s
      → svc.sessions.rows (rehashed env k db).sessions
        ≡ update_rows (has_id k) (set_hash env.random_hash) (svc.sessions.rows db.sessions)
  unfolding Sessions.update
  rows-rehashed env db k s e =
      svc.sessions.rows-update k (set_hash env.random_hash) db.sessions (has_row db k s e)

  pub find_one-rehashed :
      (env : Env) (db : Db U S C) (j k : Text) (s : Session)
      → Sessions.find_one svc.sessions k db.sessions ≡ some s
      → Sessions.find_one svc.sessions j (rehashed env k db).sessions
        ≡ Option.map
            (rewrite (has_id k) (set_hash env.random_hash))
            (Sessions.find_one svc.sessions j db.sessions)
  find_one-rehashed env db j k s e =
      rw
        (
          svc.sessions.find_one-rows (id_where j) (rehashed env k db).sessions,
          rows-rehashed env db k s e,
          svc.sessions.find_one-rows (id_where j) db.sessions,
        )
        (first-update_rows (fits_session (id_where j)) (has_id k) (set_hash env.random_hash)
          (svc.sessions.rows db.sessions) (λ r. refl))

  pub find_one-rehashed_self :
      (env : Env) (db : Db U S C) (k : Text) (s : Session)
      → Sessions.find_one svc.sessions k db.sessions ≡ some s
      → Sessions.find_one svc.sessions k (rehashed env k db).sessions
        ≡ some (set_hash env.random_hash s)
  find_one-rehashed_self env db k s e =
      rw (find_one-rehashed env db k k s e, e)
        (ground (arith, text_eq_iff s.id k, found-id db k s e))

  pub find_one-rehashed_ne :
      (env : Env) (db : Db U S C) (j k : Text) (s : Session)
      → j ≢ k
      → Sessions.find_one svc.sessions k db.sessions ≡ some s
      → Sessions.find_one svc.sessions j (rehashed env k db).sessions
        ≡ Sessions.find_one svc.sessions j db.sessions
  find_one-rehashed_ne env db j k s ne e =
      rw (find_one-rehashed env db j k s e)
        (elim (Option-cases (Sessions.find_one svc.sessions j db.sessions)) [
          | inl f ↦ rw f
          | inr (r, f) ↦ rw f (ground (arith, text_eq_of_ne j k ne, found-id db j r f))
        ])

  pub rows-revoked :
      (env : Env) (db : Db U S C) (k : Text) (s : Session)
      → Sessions.find_one svc.sessions k db.sessions ≡ some s
      → svc.sessions.rows (revoked k (rehashed env k db)).sessions
        ≡ filter (other_than k) (svc.sessions.rows db.sessions)
  rows-revoked env db k s e =
      rw
        (
          svc.sessions.rows-remove (id_where k) (rehashed env k db).sessions,
          fun_ext (other_than-fits k),
          rows-rehashed env db k s e,
        )
        (filter-update_rows (other_than k) (has_id k) (set_hash env.random_hash)
          (svc.sessions.rows db.sessions) (λ r h. ap not h) (λ r. refl))

  -- After a deletion by its id no session is found by the id.
  pub find_one-revoked :
      (db : Db U S C) (k : Text) → Sessions.find_one svc.sessions k (revoked k db).sessions ≡ none
  find_one-revoked db k =
      rw
        (
          svc.sessions.find_one-rows (id_where k) (revoked k db).sessions,
          svc.sessions.rows-remove (id_where k) db.sessions,
        )
        (first-filter-none (λ r. not (fits_session (id_where k) r)) (fits_session (id_where k))
          (svc.sessions.rows db.sessions) (λ r h. ap not h))
