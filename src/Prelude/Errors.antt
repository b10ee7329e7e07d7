-- ===== src/Prelude/Errors.antt =====
-- What a call of the API can throw, and the monad of a call that reads and writes a state. An error
-- is known by its code: the text of its message is left out.
use mathlib.Core.Bool.{Bool}
use mathlib.Core.Option.{Option, none, some}
use face_cam.Prelude.Tests.{if◌then◌else◌}

-- One constructor for each `code` that the source throws, and one for each plain `Error`.
pub data Error : Type 0 where
  unauthenticated token_expired invalid_credentials invalid_refresh : Error
  account_locked account_disabled : Error
  forbidden tenant_suspended : Error
  not_found : Error
  invalid_slug slug_unavailable member_code_taken field_key_taken : Error
  consent_required face_engine_not_provisioned : Error
  too_few_images too_many_images enrolment_failed : Error
  engine_unreachable engine_error malformed_ciphertext forged_ciphertext storage_error : Error
  invalid_signature object_not_found outside_root malformed_uri record_missing : Error
  engine_not_configured engine_auth_failed engine_admin_error unreadable_answer lone_surrogate :
      Error
  missing_tenant platform_scope no_tenant no_context : Error
  unique_violation unsupported_duration : Error

pub data Result {ℓ} (A : Type ℓ) : Type ℓ where
  ok : A → Result A
  err : Error → Result A

-- A call: what it returns or throws, and the state it leaves. A throw keeps what was written.
abbrev pub Action : Type 0 → Type 0 → Type 0
Action S A = S → Result A × S

module _ {S A : Type 0} where
  abbrev pub pure : A → Action S A
  pure a s = (ok a, s)

  abbrev pub throw : Error → Action S A
  throw e s = (err e, s)

  abbrev pub gets : (S → A) → Action S A
  gets f s = (ok (f s), s)

  abbrev pub or_throw : Option A → Error → Action S A
  or_throw none e = throw e
  or_throw (some a) e = pure a

infixl 5 ◌>>=◌ ◌>>◌
abbrev pub ◌>>=◌ : {S A B : Type 0} → Action S A → (A → Action S B) → Action S B
◌>>=◌ m f s = let (r, s') = m s in elim r [ ok a ↦ f a s' | err e ↦ throw e s' ]

abbrev pub ◌>>◌ : {S A B : Type 0} → Action S A → Action S B → Action S B
m >> k = m >>= λ _. k

abbrev pub throw_if : {S : Type 0} → Bool → Error → Action S (Unit {0})
throw_if b e s = (if b then err e else ok tt, s)

abbrev pub modify : {S : Type 0} → (S → S) → Action S (Unit {0})
modify f s = (ok tt, f s)
