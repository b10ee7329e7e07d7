-- ===== src/Auth/Cookies.antt =====
-- The routes of signing in, and the cookies that they set: apps/api/src/auth/auth.controller.ts. A
-- route returns the cookies beside its answer. `isProduction` and the lifetimes are arguments.
use face_cam.Prelude.{ℕ, Bool, true, Option, none, some, List, [], ◌∷◌, or_default, Text, codes}
use face_cam.Prelude.Errors.{◌>>=◌, ◌>>◌, pure, or_throw, unsupported_duration}
use face_cam.Enums.{super_admin, org_admin, operator}
use face_cam.Session.{SessionUser, AccessTokenClaims}
use face_cam.Context.{Call}
use face_cam.Rows.{Tenant, User}
use face_cam.Store.{Table}
use face_cam.Token.{ttl_ms}
use face_cam.FieldSchema.Schemas.{chained, mapped}
use face_cam.Auth.{
  Crypto, AuthState, LoginInput, Session, login, refresh, logout_everywhere, current_user,
}

pub data SameSite : Type 0 where
  lax strict : SameSite

-- `res.cookie(name, value, options)`, or `res.clearCookie(name, options)` where there is no value.
pub record SetCookie : Type 0 where
  pub name : Text
  pub value : Option Text
  pub http_only : Bool
  pub secure : Bool
  pub same_site : SameSite
  pub path : Text
  pub max_age : Option ℕ

abbrev pub access_cookie : Text
access_cookie = codes "fc_at"

abbrev pub refresh_cookie : Text
refresh_cookie = codes "fc_rt"

abbrev pub auth_path : Text
auth_path = codes "/api/auth"

-- `baseCookie`, with what a call adds to it.
abbrev base_cookie : Bool → Text → Option Text → Text → Option ℕ → SetCookie
base_cookie is_production name value path max_age = record {
  name = name;
  value = value;
  http_only = true;
  secure = is_production;
  same_site = lax;
  path = path;
  max_age = max_age;
}

abbrev pub session_cookies : Bool → Session → ℕ → ℕ → List SetCookie
session_cookies is_production session access_age refresh_age =
    base_cookie is_production access_cookie (some session.access_token) (codes "/")
      (some access_age)
    ∷ base_cookie is_production refresh_cookie (some session.refresh_token) auth_path
        (some refresh_age)
    ∷ []

-- `setAuthCookies`; none where a lifetime is unsupported, which the schema of the environment
-- excludes.
unfoldable pub set_auth_cookies : Bool → Text → Text → Session → Option (List SetCookie)
set_auth_cookies is_production access_ttl refresh_ttl session =
    chained (ttl_ms access_ttl)
      (λ access_age. mapped (session_cookies is_production session access_age) (ttl_ms refresh_ttl))

unfoldable pub clear_auth_cookies : Bool → List SetCookie
clear_auth_cookies is_production =
    base_cookie is_production access_cookie none (codes "/") none
    ∷ base_cookie is_production refresh_cookie none auth_path none
    ∷ []

pub redirect_for : SessionUser → Text
redirect_for user = elim user.role [
  | super_admin ↦ codes "/admin"
  | operator ↦ codes "/kiosk"
  | org_admin ↦ codes "/"
]

pub record LoginReply : Type 0 where
  pub user : SessionUser
  pub redirect_to : Text
  pub cookies : List SetCookie

pub record RefreshReply : Type 0 where
  pub user : SessionUser
  pub cookies : List SetCookie

module _ (tenants : Table Tenant (λ t. t.id)) (users : Table User (λ u. u.id)) (crypto : Crypto)
    (is_production : Bool) (access_ttl refresh_ttl : Text) where
  unfoldable pub login_route : ℕ → LoginInput → Call (AuthState tenants users crypto) LoginReply
  unfolding redirect_for
  login_route now body = do
    session ← login tenants users crypto now body
    cookies ←
        or_throw (set_auth_cookies is_production access_ttl refresh_ttl session)
          unsupported_duration
    pure
        (record { user = session.user; redirect_to = redirect_for session.user; cookies = cookies })

  -- `cookies?.[AUTH_COOKIE.REFRESH] ?? ''`
  unfoldable pub refresh_route :
      ℕ → Option Text → Call (AuthState tenants users crypto) RefreshReply
  refresh_route now cookie = do
    session ← refresh tenants users crypto now (or_default cookie [])
    cookies ←
        or_throw (set_auth_cookies is_production access_ttl refresh_ttl session)
          unsupported_duration
    pure (record { user = session.user; cookies = cookies })

  pub logout_route : Call (AuthState tenants users crypto) (List SetCookie)
  logout_route = pure (clear_auth_cookies is_production)

  pub logout_all_route : AccessTokenClaims → Call (AuthState tenants users crypto) (List SetCookie)
  logout_all_route claims =
      logout_everywhere tenants users crypto claims.sub >> pure (clear_auth_cookies is_production)

  pub me_route : AccessTokenClaims → Call (AuthState tenants users crypto) (Option SessionUser)
  me_route claims = current_user tenants users crypto claims.sub
