-- ===== src/Guards.antt =====
-- The three global guards of the API, in the order of apps/api/src/app.module.ts:
-- auth.guard.ts, roles.guard.ts and tenant-status.guard.ts of apps/api/src/common/guards.
-- The verification of a signed token and the read of a tenant's status are parameters.
pub mod Admission
mod Tests
use face_cam.Prelude.{
  ℕ, ◌≡◌, Bool, true, false, ◌||◌, not, Option, none, some, List, [], ◌∷◌, Text, codes, starts_with,
  drop, is_empty, if◌then◌else◌,
}
use face_cam.Prelude.Errors.{
  Result, ok, err, ◌>>=◌, ◌>>◌, pure, throw, throw_if, or_throw, unauthenticated, token_expired,
  forbidden, tenant_suspended,
}
use face_cam.Enums.{UserRole, super_admin, TenantStatus, includes_role, role_eq, is_writable}
use face_cam.Session.{AccessTokenClaims}
use face_cam.Context.{RequestStore, Call, IdentityPatch, set, user_role_of, tenant_id_of}

pub data Method : Type 0 where
  get head options post put patch delete : Method

-- What the guards read of a request, and of the metadata of its route.
pub record Request : Type 0 where
  pub method : Method
  pub access_cookie : Option Text
  pub authorization : Option Text

pub record Route : Type 0 where
  pub is_public : Bool
  pub required_roles : Option (List UserRole)

-- `READ_METHODS.has(method)`
abbrev pub is_read : Method → Bool
is_read get = true
is_read head = true
is_read options = true
is_read _ = false

-- A header `Bearer <token>`, cut after its first seven characters.
abbrev pub bearer : Option Text → Option Text
bearer none = none
bearer (some h) = if starts_with (codes "Bearer ") h then some (drop 7 h) else none

-- The empty text is false in a condition, so an empty cookie falls through to the header.
unfoldable pub extract_token : Request → Option Text
extract_token q = elim q.access_cookie [
  | none ↦ bearer q.authorization
  | some token ↦ if is_empty token then bearer q.authorization else some token
]

abbrev pub non_empty : Option Text → Option Text
non_empty none = none
non_empty (some token) = if is_empty token then none else some token

abbrev pub claims_patch : AccessTokenClaims → IdentityPatch
claims_patch claims = record {
  user_id = some claims.sub;
  user_role = some claims.role;
  tenant_id = claims.tenant_id;
  tenant_slug = claims.tenant_slug;
}

module _ {S : Type 0} (verify_access : Text → Option AccessTokenClaims) where
  unfoldable pub auth_guard : Route → Request → Call S (Unit {0})
  unfolding set extract_token
  auth_guard route q = if route.is_public then pure tt else (do
    token ← or_throw (non_empty (extract_token q)) unauthenticated
    claims ← or_throw (verify_access token) token_expired
    set (claims_patch claims))

-- `!required || required.length === 0`, then the check of the role.
abbrev pub role_allowed : Option (List UserRole) → Option UserRole → Bool
role_allowed none role = true
role_allowed (some []) role = true
role_allowed (some (r ∷ rs)) none = false
role_allowed (some (r ∷ rs)) (some role) = includes_role (r ∷ rs) role

module _ {S : Type 0} where
  unfoldable pub roles_guard : Route → Call S (Unit {0})
  roles_guard route (ctx, s) =
      throw_if (not (route.is_public || role_allowed route.required_roles (user_role_of ctx)))
        forbidden (ctx, s)

-- An unknown tenant is let through, as in the source.
abbrev pub status_blocks : Option TenantStatus → Bool
status_blocks none = false
status_blocks (some status) = not (is_writable status)

abbrev pub is_super_admin : Option UserRole → Bool
is_super_admin none = false
is_super_admin (some role) = role_eq role super_admin

module _ {S : Type 0} (tenant_status : S → ℕ → Option TenantStatus) where
  -- The status is read only for a write by a caller with a tenant who is no super admin.
  unfoldable pub tenant_status_guard : Route → Request → Call S (Unit {0})
  tenant_status_guard route q (ctx, s) =
      if route.is_public || is_read q.method || is_super_admin (user_role_of ctx)
      then (ok tt, (ctx, s))
      else elim (tenant_id_of ctx) [
        | none ↦ (ok tt, (ctx, s))
        | some tenant_id ↦
            throw_if (status_blocks (tenant_status s tenant_id)) tenant_suspended (ctx, s)
      ]

module _ {S : Type 0} (verify_access : Text → Option AccessTokenClaims)
    (tenant_status : S → ℕ → Option TenantStatus) where
  -- Nest runs the guards in order; the first that throws ends the request.
  unfoldable pub admit : Route → Request → Call S (Unit {0})
  admit route q =
      auth_guard verify_access route q
      >> roles_guard route
      >> tenant_status_guard tenant_status route q
