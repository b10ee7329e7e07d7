-- ===== src/Auth.antt =====
-- Signing in and out: apps/api/src/auth/auth.service.ts. The two tables, the password check and
-- the signing of tokens (argon2, JWT) are parameters; the time of the call is an argument.
pub mod Portal
pub mod Lockout
pub mod Revocation
pub mod Cookies
pub mod Browser
mod Tests
use face_cam.Prelude.{
  ℕ, ◌+◌, ◌*◌, ◌≡◌, Bool, true, false, ◌&&◌, not, Option, none, some, Text, text_eq, opt_eq, ltb,
  leb, ◌==◌, is_some, is_empty, if◌then◌else◌,
}
use face_cam.Prelude.Errors.{
  Action, Result, ok, err, ◌>>=◌, ◌>>◌, pure, throw, throw_if, or_throw, gets, modify,
  invalid_credentials, invalid_refresh, record_missing, account_locked, account_disabled,
}
use face_cam.Enums.{UserStatus, disabled}
use face_cam.Session.{
  LoginInput, SessionUser, AccessTokenClaims, RefreshTokenClaims, max_failed_logins,
  lockout_minutes,
}
use face_cam.Context.{RequestStore, Call, as_platform}
use face_cam.Rows.{Tenant, User}
use face_cam.Store.{Table}

-- `tenant?.id ?? null` and `tenant?.slug ?? null`
abbrev pub id_of : Option Tenant → Option ℕ
id_of none = none
id_of (some t) = some t.id

abbrev pub slug_of : Option Tenant → Option Text
slug_of none = none
slug_of (some t) = some t.slug

abbrev pub locked_at : ℕ → Option ℕ → Bool
locked_at now none = false
locked_at now (some until) = ltb now until

abbrev pub is_disabled : UserStatus → Bool
is_disabled disabled = true
is_disabled _ = false

abbrev pub email_in : Text → Option ℕ → User → Bool
email_in email tenant_id u = text_eq u.email email && opt_eq u.tenant_id tenant_id

abbrev pub has_id : ℕ → User → Bool
has_id id u = u.id == id

-- What `recordFailure` and a successful login write into the user's row.
abbrev pub failure : ℕ → User → User → User
failure now user u =
    let failures = user.failed_login_count + 1 in
    let locked = leb max_failed_logins failures in
    record u {
      failed_login_count = if locked then 0 else failures;
      locked_until = if locked then some (now + lockout_minutes * 60000) else none;
    }

abbrev pub success : ℕ → User → User
success now u = record u { failed_login_count = 0; locked_until = none; last_login_at = some now }

abbrev pub next_version : User → User
next_version u = record u { token_version = u.token_version + 1 }

pub record Session : Type 0 where
  pub user : SessionUser
  pub access_token : Text
  pub refresh_token : Text

abbrev pub to_session_user : User → Option Tenant → SessionUser
to_session_user user tenant = record {
  id = user.id;
  email = user.email;
  full_name = user.full_name;
  role = user.role;
  tenant_id = user.tenant_id;
  tenant_slug = slug_of tenant;
}

abbrev pub access_claims : User → Option Tenant → AccessTokenClaims
access_claims user tenant = record {
  sub = user.id;
  role = user.role;
  tenant_id = user.tenant_id;
  tenant_slug = slug_of tenant;
  ver = user.token_version;
}

abbrev pub refresh_claims : User → RefreshTokenClaims
refresh_claims user = record { sub = user.id; ver = user.token_version }

-- The empty slug counts as none: `input.tenantSlug ? … : null`.
abbrev pub portal : LoginInput → Option Text
portal input = elim input.tenant_slug [
  | none ↦ none
  | some slug ↦ if is_empty slug then none else some slug
]

-- The libraries that the service calls.
pub record Crypto : Type 0 where
  -- `argon2.verify(hash, password).catch(() => false)`
  pub verify_password : Text → Text → Bool
  -- Signing a token, and reading a refresh token, at a time.
  pub sign_access : ℕ → AccessTokenClaims → Text
  pub sign_refresh : ℕ → RefreshTokenClaims → Text
  pub verify_refresh : ℕ → Text → Option RefreshTokenClaims

abbrev pub IsUsable : ℕ → User → Type 0
IsUsable now user = (locked_at now user.locked_until ≡ false) × (is_disabled user.status ≡ false)

module _ {S : Type 0} where
  pub assert_usable : ℕ → User → Call S (Unit {0})
  assert_usable now user =
      throw_if (locked_at now user.locked_until) account_locked
      >> throw_if (is_disabled user.status) account_disabled

module _ (tenants : Table Tenant (λ t. t.id)) (users : Table User (λ u. u.id))
    (crypto : Crypto) where
  abbrev pub AuthState : Type 0
  AuthState = tenants.State × users.State

  find_tenant : Text → Call AuthState (Option Tenant)
  find_tenant slug = gets (λ st. tenants.find_first st.1.0 (λ t. text_eq t.slug slug))

  -- The update of one user's row that was found before, inside `asPlatform`.
  update_user : ℕ → (User → User) → Call AuthState (Unit {0})
  unfolding as_platform
  update_user id f =
      as_platform (modify (λ st. (st.0, (st.1.0, users.update_many (has_id id) f st.1.1))))

  record_failure : ℕ → User → Call AuthState (Unit {0})
  unfolding update_user
  record_failure now user = update_user user.id (failure now user)

  pub issue_session : ℕ → User → Option Tenant → Call AuthState Session
  issue_session now user tenant = pure (record {
    user = to_session_user user tenant;
    access_token = crypto.sign_access now (access_claims user tenant);
    refresh_token = crypto.sign_refresh now (refresh_claims user);
  })

  -- `login`, from the tenant that the portal's slug names.
  pub sign_in : ℕ → LoginInput → Option Tenant → Call AuthState Session
  unfolding as_platform record_failure issue_session assert_usable
  sign_in now input tenant = do
    found ← as_platform (gets (λ st. users.find_first st.1.1 (email_in input.email (id_of tenant))))
    user ← or_throw found invalid_credentials
    assert_usable now user
    if crypto.verify_password user.password_hash input.password
        then update_user user.id (success now) >> issue_session now user tenant
        else record_failure now user >> throw invalid_credentials

  pub login : ℕ → LoginInput → Call AuthState Session
  unfolding sign_in find_tenant
  login now input = elim (portal input) [
    | none ↦ sign_in now input none
    | some slug ↦ do
      tenant ← find_tenant slug
      known ← or_throw tenant invalid_credentials
      sign_in now input (some known)
  ]

  abbrev pub versions_differ : User → RefreshTokenClaims → Bool
  versions_differ user claims = not (user.token_version == claims.ver)

  -- The tenant of a user's row, if it has one.
  tenant_of : User → Call AuthState (Option Tenant)
  tenant_of user = elim user.tenant_id [
    | none ↦ pure none
    | some id ↦ gets (λ st. tenants.find_unique st.1.0 id)
  ]

  pub refresh : ℕ → Text → Call AuthState Session
  unfolding as_platform issue_session assert_usable tenant_of
  refresh now token = do
    claims ← or_throw (crypto.verify_refresh now token) invalid_refresh
    found ← as_platform (gets (λ st. users.find_unique st.1.1 claims.sub))
    user ← or_throw found invalid_refresh
    throw_if (versions_differ user claims) invalid_refresh
    assert_usable now user
    tenant ← tenant_of user
    issue_session now user tenant

  -- The update throws where the row is missing.
  pub logout_everywhere : ℕ → Call AuthState (Unit {0})
  unfolding update_user as_platform
  logout_everywhere user_id = do
    found ← as_platform (gets (λ st. users.find_unique st.1.1 user_id))
    or_throw found record_missing
    update_user user_id next_version

  pub current_user : ℕ → Call AuthState (Option SessionUser)
  unfolding as_platform tenant_of
  current_user user_id = do
    found ← as_platform (gets (λ st. users.find_unique st.1.1 user_id))
    elim found [
      | none ↦ pure none
      | some user ↦ do tenant ← tenant_of user; pure (some (to_session_user user tenant))
    ]
