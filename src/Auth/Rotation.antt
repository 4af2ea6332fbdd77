-- ===== src/Auth/Rotation.antt =====
-- Refresh tokens are rotated: each is good once, and one that comes back ends the session.
use vethealth_backend.Base.{
  ◌≡◌, refl, ◌≢◌, true, some, none, arith, Text, truthy, text_eq_iff, filter,
}
use vethealth_backend.Users.{User, by_id}
use vethealth_backend.Auth.{Services, Env, Db, ok, err, unauthorized, tokens_data, refresh_tokens}
use vethealth_backend.Auth.Sessions
use vethealth_backend.Auth.Sessions.{Session, SessionWhere, fits_session, equal, has_id}
use vethealth_backend.Auth.SessionRows.{
  other_than, text_eq_of_ne, soft_delete-id, rehashed, revoked, found-id, set_hash,
  find_one-rehashed_self, find_one-rehashed_ne, rows-revoked, find_one-revoked,
}

module _ {U S C : Type 0} (svc : Services U S C) where
  -- The session with the id is stored with the hash, and its user is there.
  pub record IsCurrent (db : Db U S C) (k hash : Text) (s : Session) (u : User) : Type 0 where
    pub found : Sessions.find_one svc.sessions k db.sessions ≡ some s
    pub holds : s.hash ≡ hash
    pub user : svc.users.find_one (by_id s.user) db.users ≡ some u

  refresh_tokens_lem :
      (env : Env) (db : Db U S C) (k hash : Text) (s : Session) (u : User)
      → IsCurrent db k hash s u
      → refresh_tokens svc env k hash db
        ≡ (ok (tokens_data svc env u.id u.role k env.random_hash), rehashed svc env k db)
  unfolding refresh_tokens
  refresh_tokens_lem env db k hash s u h =
      ground (arith, text_eq_iff s.hash hash, found-id svc db k s h.found)

  -- A hash other than the stored one is refused, and the session is gone.
  refresh_tokens_mismatch :
      (env : Env) (db : Db U S C) (k hash : Text) (s : Session)
      → truthy k ≡ true
      → Sessions.find_one svc.sessions k db.sessions ≡ some s
      → s.hash ≢ hash
      → refresh_tokens svc env k hash db ≡ (err unauthorized, revoked svc k db)
  unfolding refresh_tokens
  refresh_tokens_mismatch env db k hash s t e ne = rw (
    e,
    text_eq_of_ne s.hash hash ne,
    found-id svc db k s e,
    soft_delete-id svc.sessions k db.sessions t,
  )

  -- A session that is not there is refused, and nothing changes.
  pub refresh_tokens_absent :
      (env : Env) (db : Db U S C) (k hash : Text)
      → Sessions.find_one svc.sessions k db.sessions ≡ none
      → refresh_tokens svc env k hash db ≡ (err unauthorized, db)
  unfolding refresh_tokens
  refresh_tokens_absent env db k hash e = rw e

  -- A refresh with the stored hash of a session returns tokens for it and stores a new hash in it.
  -- Every other session, and the other tables, stay as they were.
  pub refresh_tokens-IsCurrent :
      (env : Env) (db : Db U S C) (k hash : Text) (s : Session) (u : User)
      → IsCurrent db k hash s u
      → ((refresh_tokens svc env k hash db).0
          ≡ ok (tokens_data svc env u.id u.role k env.random_hash))
        × (Sessions.find_one svc.sessions k (refresh_tokens svc env k hash db).1.sessions
            ≡ some (set_hash env.random_hash s))
        × ((j : Text)
            → j ≢ k
            → Sessions.find_one svc.sessions j (refresh_tokens svc env k hash db).1.sessions
              ≡ Sessions.find_one svc.sessions j db.sessions)
        × ((refresh_tokens svc env k hash db).1.users ≡ db.users)
        × ((refresh_tokens svc env k hash db).1.confirms ≡ db.confirms)
  refresh_tokens-IsCurrent env db k hash s u h = rw (refresh_tokens_lem env db k hash s u h) (
    refl,
    find_one-rehashed_self svc env db k s h.found,
    (λ j ne. find_one-rehashed_ne svc env db j k s ne h.found),
    refl,
    refl,
  )

  -- A refresh token that was used once is refused when it comes back, and the session that it was
  -- issued for is deleted, so that no later refresh of that session succeeds, the last token's
  -- included. The other sessions stay. The session id is not empty, and the hash that the first
  -- refresh drew is a new one.
  pub refresh_tokens_replay :
      (env env' : Env) (db : Db U S C) (k hash : Text) (s : Session) (u : User)
      → truthy k ≡ true
      → env.random_hash ≢ hash
      → IsCurrent db k hash s u
      → let db' = (refresh_tokens svc env k hash db).1 in
        let (answer, db'') = refresh_tokens svc env' k hash db' in
        (answer ≡ err unauthorized)
        × (svc.sessions.rows db''.sessions ≡ filter (other_than k) (svc.sessions.rows db.sessions))
        × ((env'' : Env) (any_hash : Text)
            → refresh_tokens svc env'' k any_hash db'' ≡ (err unauthorized, db''))
  refresh_tokens_replay env env' db k hash s u t ne h =
      rw
        (
          refresh_tokens_lem env db k hash s u h,
          refresh_tokens_mismatch env' (rehashed svc env k db) k hash (set_hash env.random_hash s) t
              (find_one-rehashed_self svc env db k s h.found) ne,
        )
        (
          refl,
          rows-revoked svc env db k s h.found,
          λ env'' any_hash.
              refresh_tokens_absent env'' (revoked svc k (rehashed svc env k db)) k any_hash
                (find_one-revoked svc (rehashed svc env k db) k),
        )
