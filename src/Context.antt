-- ===== src/Context.antt =====
-- The per-request store of apps/api/src/common/context/request-context.ts. `none` is a call
-- outside of any request.
pub mod Scoping
mod Tests
use face_cam.Prelude.{if◌then◌else◌, ℕ, Bool, true, false, Option, none, some, Text, ◌≡◌}
use face_cam.Prelude.Errors.{
  Error, no_context, no_tenant, missing_tenant, platform_scope, Result, ok, err, Action, ◌>>=◌,
  or_throw,
}
use mathlib.Core.Option
use face_cam.Enums.{UserRole}

pub record RequestStore : Type 0 where
  pub correlation_id : Text
  pub tenant_id : Option ℕ
  pub tenant_slug : Option Text
  pub user_id : Option ℕ
  pub user_role : Option UserRole
  pub platform_scope : Bool

-- The state of a call: the request's store beside whatever else the call reads and writes.
abbrev pub Call : Type 0 → Type 0 → Type 0
Call S A = Action (Option RequestStore × S) A

-- What the middleware opens a request with: `RequestContext.run({ correlationId }, …)`.
abbrev pub opened : Text → RequestStore
opened correlation_id = record {
  correlation_id = correlation_id;
  tenant_id = none;
  tenant_slug = none;
  user_id = none;
  user_role = none;
  platform_scope = false;
}

abbrev pub tenant_id_of : Option RequestStore → Option ℕ
tenant_id_of none = none
tenant_id_of (some r) = r.tenant_id

abbrev pub user_id_of : Option RequestStore → Option ℕ
user_id_of none = none
user_id_of (some r) = r.user_id

abbrev pub user_role_of : Option RequestStore → Option UserRole
user_role_of none = none
user_role_of (some r) = r.user_role

abbrev pub is_platform_scope : Option RequestStore → Bool
is_platform_scope none = false
is_platform_scope (some r) = r.platform_scope

-- The fields that `RequestContext.set` is called with.
pub record IdentityPatch : Type 0 where
  pub user_id : Option ℕ
  pub user_role : Option UserRole
  pub tenant_id : Option ℕ
  pub tenant_slug : Option Text

unfoldable pub assign : IdentityPatch → RequestStore → RequestStore
assign patch r = record r {
  user_id = patch.user_id;
  user_role = patch.user_role;
  tenant_id = patch.tenant_id;
  tenant_slug = patch.tenant_slug;
}

module _ {S : Type 0} where
  unfoldable pub set : IdentityPatch → Call S (Unit {0})
  set patch (none, s) = (ok tt, (none, s))
  set patch (some r, s) = (ok tt, (some (assign patch r), s))

  unfoldable pub require_tenant_id : Call S ℕ
  require_tenant_id (ctx, s) = or_throw (tenant_id_of ctx) no_tenant (ctx, s)

abbrev pub with_scope : Bool → RequestStore → RequestStore
with_scope flag r = record r { platform_scope = flag }

-- `asPlatform`: the flag is set for the callback, and put back in a `finally`.
module _ {S A : Type 0} where
  unfoldable pub as_platform : Call S A → Call S A
  as_platform callback (none, s) = (err no_context, (none, s))
  as_platform callback (some r, s) =
      let (result, (ctx, s')) = callback (some (with_scope true r), s) in
      (result, (Option.map (with_scope r.platform_scope) ctx, s'))

-- A call of the tenant-scoped client: the tenant of the request, or a refusal.
abbrev pub scoped : {S B : Type 0} → (ℕ → Call S B) → Call S B
scoped k (ctx, s) =
    if is_platform_scope ctx
    then (err platform_scope, (ctx, s))
    else elim (tenant_id_of ctx) [ none ↦ (err missing_tenant, (ctx, s)) | some t ↦ k t (ctx, s) ]
