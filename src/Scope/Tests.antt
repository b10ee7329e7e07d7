-- ===== src/Scope/Tests.antt =====
-- Runs of the tenant filter.
use face_cam.Prelude.{
  ℕ, ◌+◌, ◌≡◌, ◌≢◌, refl, Bool, true, false, none, some, [], ◌∷◌, codes, if◌then◌else◌,
}
use face_cam.Enums.{org_admin}
use face_cam.Context.{RequestStore}
use face_cam.Scope.{
  Model, member, Operation, update_many, absent, Args, tenant_field, scoped_query, returned,
}
use face_cam.Scope.Isolation.{IsIsolated, scoped_query-IsIsolated}

abbrev inside : RequestStore
inside = record {
  correlation_id = [];
  tenant_id = some 7;
  tenant_slug = none;
  user_id = some 1;
  user_role = some org_admin;
  platform_scope = false;
}

abbrev platform : RequestStore
platform = record inside { platform_scope = true }

-- The database keeps the number of its calls and answers with it.
abbrev query : Model → Operation → Args ℕ → ℕ → ℕ × ℕ
query model operation args n = (0, n + 1)

abbrev transaction : ℕ → Model → Operation → Args ℕ → ℕ → ℕ × ℕ
transaction t model operation args n = (t, n + 1)

abbrev id_of : ℕ → ℕ
id_of t = t

abbrev every_delegate : Model → Operation → Bool
every_delegate model operation = true

-- A filter that names another tenant.
abbrev stolen : Args ℕ
stolen = record {
  filter = some ((codes "tenantId", 8) ∷ (codes "status", 1) ∷ []);
  creation = none;
  payload = absent;
}

status_ne : codes "status" ≢ codes "tenantId"
status_ne e = cc

scoped_query-IsIsolated_example :
    (sent : Args ℕ) × (scoped_query id_of query transaction every_delegate member update_many stolen
        (some inside, 0)
      ≡ returned id_of query transaction every_delegate (some inside) (
          if every_delegate member update_many
          then transaction 7 member update_many sent 0
          else query member update_many sent 0))
    × IsIsolated id_of query transaction every_delegate
        (codes "tenantId")
        (codes "status")
        7
        update_many
        stolen
        sent
unfolding tenant_field
scoped_query-IsIsolated_example =
    scoped_query-IsIsolated id_of query transaction every_delegate member (codes "tenantId")
      (codes "status") update_many stolen (some inside) 0 7 refl refl refl status_ne
