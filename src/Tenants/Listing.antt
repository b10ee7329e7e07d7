-- ===== src/Tenants/Listing.antt =====
-- The list of organizations: TenantsService.list of apps/api/src/tenants/tenants.service.ts.
use face_cam.Prelude.{
  ℕ, Bool, true, false, ◌&&◌, ◌||◌, Option, none, some, List, map, length, Text, is_empty, opt_eq,
}
use face_cam.Enums.{TenantTemplate, TenantStatus, trial, active, past_due, suspended, cancelled}
use face_cam.Rows.{Tenant, User}
use face_cam.Store.{Table}
use face_cam.Paging.{Paginated, paginate}

pub record ListTenantsQuery : Type 0 where
  pub page : ℕ
  pub page_size : ℕ
  pub search : Option Text
  pub status : Option TenantStatus

pub record TenantSummary : Type 0 where
  pub id : ℕ
  pub name : Text
  pub slug : Text
  pub template : TenantTemplate
  pub status : TenantStatus
  pub plan : Option Text
  pub valid_until : Option ℕ
  pub user_count : ℕ

abbrev pub to_summary : Tenant → ℕ → TenantSummary
to_summary tenant user_count = record {
  id = tenant.id;
  name = tenant.name;
  slug = tenant.slug;
  template = tenant.template;
  status = tenant.status;
  plan = tenant.plan;
  valid_until = tenant.valid_until;
  user_count = user_count;
}

abbrev pub status_is : TenantStatus → TenantStatus → Bool
status_is trial trial = true
status_is active active = true
status_is past_due past_due = true
status_is suspended suspended = true
status_is cancelled cancelled = true
status_is _ _ = false

-- `query.status ? { status } : {}` and `query.search ? { OR: … } : {}`, with the database's
-- `contains` that ignores the case.
abbrev pub wanted_status : Option TenantStatus → Tenant → Bool
wanted_status none tenant = true
wanted_status (some status) tenant = status_is tenant.status status

abbrev pub found : (Text → Text → Bool) → Option Text → Tenant → Bool
found contains none tenant = true
found contains (some wanted) tenant =
    is_empty wanted || contains tenant.name wanted || contains tenant.slug wanted

module _ (tenants : Table Tenant (λ t. t.id)) (users : Table User (λ u. u.id))
    (contains : Text → Text → Bool) (newest_first : List Tenant → List Tenant) where
  -- `_count.users`
  abbrev pub user_count : users.State → Tenant → ℕ
  user_count us tenant = length (users.find_many us (λ u. opt_eq u.tenant_id (some tenant.id)))

  unfoldable pub list : ListTenantsQuery → tenants.State → users.State → Paginated TenantSummary
  unfolding paginate
  list query ts us = paginate query.page query.page_size (
      map (λ t. to_summary t (user_count us t))
        (newest_first (
          tenants.find_many ts
            (λ t. wanted_status query.status t && found contains query.search t))))
