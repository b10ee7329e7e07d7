-- ===== src/Audit.antt =====
-- The audit trail: apps/api/src/common/interceptors/audit.interceptor.ts, and the correlation id that
-- its rows carry, apps/api/src/common/middleware/correlation-id.middleware.ts. The insertion of a row
-- by the database is a parameter; the row is written after the response is under way, here at once.
pub mod Recording
mod Tests
use face_cam.Prelude.{
  ℕ, Bool, true, false, ◌&&◌, Option, none, some, List, [], ◌∷◌, length, leb, ltb, or_default,
  text_eq, Text, codes, if◌then◌else◌,
}
use face_cam.Prelude.Errors.{Result, ok, err, Action}
use face_cam.Context.{RequestStore, Call, tenant_id_of, user_id_of, scoped, as_platform, opened}
use face_cam.FieldSchema.Values.{Value, object, Entries, end, entry, get}
use face_cam.Routes.{AuditSpec}

-- A header or a route parameter, which may be repeated.
pub data Header : Type 0 where
  absent : Header
  single : Text → Header
  repeated : List Text → Header

abbrev pub normalise_header : Header → Option Text
normalise_header absent = none
normalise_header (single t) = some t
normalise_header (repeated []) = none
normalise_header (repeated (t ∷ ts)) = some t

pub record HttpRequest : Type 0 where
  pub method : Text
  -- `request.route?.path`
  pub route_path : Option Text
  pub path : Text
  pub param_id : Header
  pub ip : Option Text
  pub user_agent : Header

pub record AuditRow : Type 0 where
  pub tenant_id : Option ℕ
  pub actor_user_id : Option ℕ
  pub action : Text
  pub entity : Text
  pub entity_id : Option Text
  -- `metadata`
  pub method : Text
  pub path : Text
  pub ip_address : Option Text
  pub user_agent : Option Text
  pub correlation_id : Text

-- `'id' in result`
abbrev pub has_key : Text → Entries ℕ → Bool
has_key key end = false
has_key key (entry k v es) = let rest = has_key key es in if text_eq k key then true else rest

abbrev correlation_id_of : Option RequestStore → Text
correlation_id_of none = codes "no-context"
correlation_id_of (some r) = r.correlation_id

-- `String(id)`
module _ (to_text : Value ℕ → Text) where
  unfoldable pub entity_id_of : Value ℕ → HttpRequest → Option Text
  entity_id_of (object es) request =
      if has_key (codes "id") es
      then some (to_text (get (codes "id") es))
      else normalise_header request.param_id
  entity_id_of result request = normalise_header request.param_id

  unfoldable pub audit_row : AuditSpec → HttpRequest → Value ℕ → Option RequestStore → AuditRow
  unfolding entity_id_of
  audit_row spec request result ctx = record {
    tenant_id = tenant_id_of ctx;
    actor_user_id = user_id_of ctx;
    action = spec.action;
    entity = spec.entity;
    entity_id = entity_id_of result request;
    method = request.method;
    path = or_default request.route_path request.path;
    ip_address = request.ip;
    user_agent = normalise_header request.user_agent;
    correlation_id = correlation_id_of ctx;
  }

  module _ {S : Type 0} (create : AuditRow → S → Result (Unit {0}) × S) where
    abbrev write : AuditRow → Call S (Unit {0})
    write row (ctx, s) = let (done, s') = create row s in (done, (ctx, s'))

    -- A tenant's action goes through the client that is bound to it, any other outside of tenants.
    -- Whatever is thrown is logged and swallowed.
    unfoldable pub record_action :
        AuditSpec → HttpRequest → Value ℕ → Option RequestStore × S → Option RequestStore × S
    unfolding audit_row as_platform
    record_action spec request result (ctx, s) =
        let row = audit_row spec request result ctx in
        elim (tenant_id_of ctx) [
          | none ↦ (as_platform (write row) (ctx, s)).1
          | some tenant_id ↦ (scoped (λ t. write row) (ctx, s)).1
        ]

    -- `tap({ next })`: what a handler that throws leaves stays as it is.
    unfoldable pub recorded :
        AuditSpec
        → HttpRequest
        → Result (Value ℕ)
        → Option RequestStore × S
        → Result (Value ℕ) × (Option RequestStore × S)
    unfolding record_action
    recorded spec request (ok value) st = (ok value, record_action spec request value st)
    recorded spec request (err e) st = (err e, st)

    -- `intercept`: the handler, then the record of its result if the route is marked.
    unfoldable pub intercept : Option AuditSpec → HttpRequest → Call S (Value ℕ) → Call S (Value ℕ)
    unfolding recorded
    intercept none request handle st = handle st
    intercept (some spec) request handle st =
        let (result, st') = handle st in recorded spec request result st'

abbrev accepted : Text → Option Text
accepted t = if ltb 0 (length t) && leb (length t) 100 then some t else none

abbrev header_id : Header → Text → Text
header_id (single t) fresh = or_default (accepted t) fresh
header_id _ fresh = fresh

-- `CorrelationIdMiddleware.use`: the id of the request, with a fresh UUID as an argument, and the
-- store that the request opens with.
unfoldable pub use_correlation_id : Header → Text → Text × RequestStore
use_correlation_id header fresh = (header_id header fresh, opened (header_id header fresh))
