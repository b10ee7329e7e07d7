-- ===== src/Session.antt =====
-- The session types and constants of packages/shared/src/auth.ts. Ids are UUIDs, which the code
-- only compares: they are numbers here.
use face_cam.Prelude.{ℕ, Option, Text}
use face_cam.Enums.{UserRole}

pub record LoginInput : Type 0 where
  pub email : Text
  pub password : Text
  pub tenant_slug : Option Text

-- The authenticated user as the client sees them.
pub record SessionUser : Type 0 where
  pub id : ℕ
  pub email : Text
  pub full_name : Text
  pub role : UserRole
  pub tenant_id : Option ℕ
  pub tenant_slug : Option Text

-- Claims carried by the access token, and by the refresh token.
pub record AccessTokenClaims : Type 0 where
  pub sub : ℕ
  pub role : UserRole
  pub tenant_id : Option ℕ
  pub tenant_slug : Option Text
  pub ver : ℕ

pub record RefreshTokenClaims : Type 0 where
  pub sub : ℕ
  pub ver : ℕ

abbrev pub max_failed_logins : ℕ
max_failed_logins = 5

abbrev pub lockout_minutes : ℕ
lockout_minutes = 15
