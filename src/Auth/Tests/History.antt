-- ===== src/Auth/Tests/History.antt =====
-- Sequences of requests over tables in memory, and requests over tables that mark their deletions.
use vethealth_backend.Base.{refl, ◌≢◌, inl, inr, true, false, List, [], ◌∷◌, arith}
use vethealth_backend.Password.Toy.{toy_scrypt, toy_scrypt-IsKeyDerivation}
use vethealth_backend.Repository.Tombstones.{Stored, tombstones}
use vethealth_backend.Users
use vethealth_backend.Users.{User, fits_user}
use vethealth_backend.Auth.{Services, Db, err, fault}
use vethealth_backend.Auth.Sessions
use vethealth_backend.Auth.Sessions.{Session, fits_session}
use vethealth_backend.Auth.Confirms
use vethealth_backend.Auth.Confirms.{Confirm, fits_confirm}
use vethealth_backend.Auth.Soundness.{IsHash, Holds}
use vethealth_backend.Auth.History.{handle, logs_in, confirms, refreshes, Reach, here, next, answer}
use vethealth_backend.Auth.Reachable.{Reach-IsSound, handle-ne-fault}
use vethealth_backend.Auth.Tests.{
  server, env, later, ann_password, ann_hash, ann, eve, ann_session, db, ann_login, bob_confirm,
}

db-IsSound : Holds server db
unfolding ann_hash
db-IsSound =
    let stored : IsHash toy_scrypt ann_hash = record {
      salt = 98 ∷ [];
      password = ann_password;
      dotless = omega arith;
      made = refl;
    } in
    record {
      passwords =
          (inr (ann_hash, refl, stored), (inl (refl, refl), (inr (ann_hash, refl, stored), tt)));
      session_users = (refl, (refl, (refl, tt)));
      confirm_users = (refl, tt);
    }

-- The pending user confirms, and another logs in.
abbrev confirmed_db : Db (List User) (List Session) (List Confirm)
confirmed_db = (handle server env (confirms bob_confirm) db).1

abbrev later_db : Db (List User) (List Session) (List Confirm)
later_db = (handle server later (logs_in ann_login) confirmed_db).1

later_db-Reach : Reach server db later_db
later_db-Reach =
    next (next here (answer db env (confirms bob_confirm) (omega arith) refl))
      (answer confirmed_db later (logs_in ann_login) (omega arith) tt)

Reach-IsSound_example : Holds server later_db
Reach-IsSound_example = Reach-IsSound server toy_scrypt-IsKeyDerivation db-IsSound later_db-Reach

handle-ne-fault_example :
    (handle server env (refreshes ann_session.id ann_session.hash) later_db).0 ≢ err fault
handle-ne-fault_example =
    handle-ne-fault server toy_scrypt-IsKeyDerivation db later_db env
      (refreshes ann_session.id ann_session.hash) (omega arith) tt db-IsSound later_db-Reach

abbrev marking : Services (List (Stored User)) (List (Stored Session)) (List (Stored Confirm))
marking = record {
  users = tombstones fits_user Users.has_id;
  sessions = tombstones fits_session Sessions.has_id;
  confirms = tombstones fits_confirm Confirms.has_id;
  scrypt = toy_scrypt;
  sign = λ payload secret expires_in. secret;
  ms = λ t. 1000;
  secret = 1 ∷ [];
  expires = 2 ∷ [];
  refresh_secret = 3 ∷ [];
  refresh_expires = 4 ∷ [];
}

abbrev marked_db : Db (List (Stored User)) (List (Stored Session)) (List (Stored Confirm))
marked_db = record {
  users = record { row = eve; deleted = true } ∷ record { row = ann; deleted = false } ∷ [];
  sessions = record { row = ann_session; deleted = false } ∷ [];
  confirms = [];
  outbox = [];
}
