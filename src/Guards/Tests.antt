-- ===== src/Guards/Tests.antt =====
-- Runs of the three guards.
use face_cam.Prelude.{
  ℕ, ◌≡◌, ◌≢◌, refl, false, Option, none, some, [], ◌∷◌, Text, codes, text_eq, if◌then◌else◌,
}
use face_cam.Enums.{operator, org_admin, super_admin, TenantStatus, suspended, trial}
use face_cam.Session.{AccessTokenClaims}
use face_cam.Context.{RequestStore, opened, assign}
use face_cam.Guards.{
  get, post, Request, Route, claims_patch, auth_guard, roles_guard, tenant_status_guard,
  extract_token, admit,
}
use face_cam.Guards.Admission.{IsAdmitted, admit-IsAdmitted}

abbrev claims : AccessTokenClaims
claims = record {
  sub = 3;
  role = operator;
  tenant_id = some 7;
  tenant_slug = some (codes "acme");
  ver = 0;
}

abbrev verify : Text → Option AccessTokenClaims
verify token = if text_eq token (codes "good") then some claims else none

abbrev in_trial : ℕ → ℕ → Option TenantStatus
in_trial s id = some trial

abbrev in_suspension : ℕ → ℕ → Option TenantStatus
in_suspension s id = some suspended

abbrev route : Route
route = record { is_public = false; required_roles = some (operator ∷ org_admin ∷ []) }

abbrev write : Request
write = record {
  method = post;
  access_cookie = some [];
  authorization = some (codes "Bearer good");
}

abbrev look : Request
look = record { method = get; access_cookie = some (codes "good"); authorization = none }

abbrev start : ℕ
start = 0

abbrev r : RequestStore
r = opened (codes "c1")

operator_ne : operator ≢ super_admin
operator_ne e = cc

admit-IsAdmitted_example :
    IsAdmitted verify in_trial route write r start (assign (claims_patch claims) r)
    × (start ≡ start)
unfolding admit auth_guard roles_guard tenant_status_guard extract_token assign
admit-IsAdmitted_example =
    admit-IsAdmitted verify in_trial route write r (assign (claims_patch claims) r) start start refl
      refl
