-- ===== src/Routes.antt =====
-- The routes of the API: its controllers, and the decorators public, roles and audited of
-- apps/api/src/common/decorators. The documentation of a route is left out.
pub mod Table
pub mod Access
pub mod Consent
mod Tests
use face_cam.Prelude.{Bool, true, false, ◌||◌, Option, none, some, List, [], ◌∷◌, Text}
use face_cam.Enums.{UserRole, org_admin}
use face_cam.Guards.{Method, Route}

pub record AuditSpec : Type 0 where
  pub action : Text
  pub entity : Text

-- What the decorators of a method say: nothing, `@Public()`, or `@Roles(UserRole.ORG_ADMIN)`.
pub data Policy : Type 0 where
  inherited public admins_only : Policy

pub record Endpoint : Type 0 where
  pub method : Method
  pub path : Text
  -- `@Public()` and `@Roles(...)` of the controller
  pub class_public : Bool
  pub class_roles : Option (List UserRole)
  pub policy : Policy
  pub audit : Option AuditSpec

abbrev is_public_policy : Policy → Bool
is_public_policy public = true
is_public_policy _ = false

-- `getAllAndOverride`: what the method says goes before what the class says.
abbrev roles_of : Policy → Option (List UserRole) → Option (List UserRole)
roles_of admins_only class_roles = some (org_admin ∷ [])
roles_of _ class_roles = class_roles

-- What the guards read of a route.
unfoldable pub route_of : Endpoint → Route
route_of e = record {
  is_public = is_public_policy e.policy || e.class_public;
  required_roles = roles_of e.policy e.class_roles;
}
