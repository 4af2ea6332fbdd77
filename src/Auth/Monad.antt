-- ===== src/Auth/Monad.antt =====
-- A request to the authentication service: state and exceptions. What was written before an
-- exception stays written, since the service opens no transaction.
use vethealth_backend.Base.{Bool, Option, none, some, List, Text, if◌then◌else◌}

-- `ERROR_MESSAGE`, as far as the service raises it
pub data Message : Type 0 where
  incorrect_email_or_password user_is_not_exist confirmation_token_has_expired : Message
  old_password_is_not_match email_send_failed : Message

-- `fault` is any error that is no HTTP exception; it is answered with status 500.
pub data Error : Type 0 where
  unprocessable unavailable : Message → Error
  unauthorized fault : Error

pub data Result (A : Type 0) : Type 0 where
  ok : A → Result A
  err : Error → Result A

pub data Mail : Type 0 where
  sign_up forgot_password : Text → Text → Mail
  change_password : Text → Mail

-- The tables, and the mails that were sent, latest first.
pub record Db (U S C : Type 0) : Type 0 where
  pub users : U
  pub sessions : S
  pub confirms : C
  pub outbox : List Mail

abbrev pub Action : Type 0 → Type 0 → Type 0
Action D A = D → Result A × D

module _ {D : Type 0} where
  abbrev pub pure : {A : Type 0} → A → Action D A
  pure a d = (ok a, d)

  abbrev pub raise : {A : Type 0} → Error → Action D A
  raise e d = (err e, d)

  abbrev pub gets : {A : Type 0} → (D → A) → Action D A
  gets f d = (ok (f d), d)

  abbrev pub modify : (D → D) → Action D (Unit {0})
  modify f d = (ok tt, f d)

  abbrev pub raise_if : Bool → Error → Action D (Unit {0})
  raise_if c e d = (if c then err e else ok tt, d)

  abbrev pub or_raise : {A : Type 0} → Option A → Error → Action D A
  or_raise none e = raise e
  or_raise (some a) e = pure a

infixl 5 ◌>>=◌ ◌>>◌
abbrev pub ◌>>=◌ : {D A B : Type 0} → Action D A → (A → Action D B) → Action D B
◌>>=◌ m f d = let (r, d') = m d in elim r [ ok a ↦ f a d' | err e ↦ raise e d' ]

abbrev pub ◌>>◌ : {D A B : Type 0} → Action D A → Action D B → Action D B
m >> k = m >>= λ _. k
