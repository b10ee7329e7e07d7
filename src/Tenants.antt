-- ===== src/Tenants.antt =====
-- Organizations: apps/api/src/tenants/tenants.service.ts. Ids that the database makes up, the
-- hash of the first password and the time of the call are arguments. The rows for branding and
-- settings, which hold only defaults at first, are left out, and a call returns the stored row
-- where the source returns a rendering of it.
pub mod Naming
pub mod Lifecycle
pub mod Listing
mod Tests
use face_cam.Prelude.{
  ℕ, zero, suc, ◌+◌, ◌≡◌, Bool, true, false, not, Option, none, some, List, [], ◌∷◌, ◌++◌, map,
  Text, text_eq, codes, decimal, ◌==◌, if◌then◌else◌, or_default, is_some,
}
use face_cam.Prelude.Errors.{
  Action, Result, ok, err, ◌>>=◌, ◌>>◌, pure, throw, throw_if, or_throw, gets, modify, not_found,
  invalid_slug, slug_unavailable,
}
use face_cam.Enums.{
  TenantTemplate, TenantStatus, trial, suspended, cancelled, UserRole, org_admin, UserStatus,
}
use face_cam.Context.{RequestStore, Call, as_platform}
use face_cam.Rows.{Tenant, User, MemberFieldDefinition}
use face_cam.Slug.{Unicode, slugify, validate_slug, hyphen}
use face_cam.Store.{Table}
use face_cam.Templates.{FieldDefinition, fields_for_template}

-- `attempt === 0 ? base : `${base}-${attempt + 1}``
pub candidate : Text → ℕ → Text
candidate base zero = base
candidate base (suc attempt) = base ++ (hyphen ∷ decimal (attempt + 2))

-- The loop over the attempts that are left, from the given one.
pub free_slug : (Text → Bool) → Text → ℕ → ℕ → Result Text
free_slug taken base zero attempt = err slug_unavailable
free_slug taken base (suc left) attempt =
    let rest = free_slug taken base left (attempt + 1) in
    if taken (candidate base attempt) then rest else ok (candidate base attempt)

abbrev pub max_attempts : ℕ
max_attempts = 50

pub resolve_slug : Unicode → (Text → Bool) → Text → Result Text
resolve_slug u taken wanted =
    let base = slugify u wanted in
    if is_some (validate_slug base) then err invalid_slug else free_slug taken base max_attempts 0

pub record CreateTenantInput : Type 0 where
  pub name : Text
  pub slug : Option Text
  pub template : TenantTemplate
  pub timezone : Text
  pub billing_email : Option Text
  pub plan : Option Text
  pub valid_until : Option ℕ
  pub admin_full_name : Text
  pub admin_email : Text
  pub admin_password : Text

-- An absent field is `undefined` and leaves the column; `some none` writes null.
pub record UpdateTenantInput : Type 0 where
  pub name : Option Text
  pub timezone : Option Text
  pub billing_email : Option (Option Text)
  pub plan : Option (Option Text)
  pub valid_until : Option (Option ℕ)

abbrev pub tenant_row : ℕ → CreateTenantInput → Text → Tenant
tenant_row id input slug = record {
  id = id;
  name = input.name;
  slug = slug;
  template = input.template;
  status = trial;
  timezone = input.timezone;
  billing_email = input.billing_email;
  plan = input.plan;
  valid_until = input.valid_until;
  suspended_at = none;
  suspended_reason = none;
  compreface_api_key_enc = none;
}

-- The columns that `create` leaves out have the defaults of the schema.
abbrev pub admin_row : ℕ → ℕ → CreateTenantInput → Text → User
admin_row id tenant_id input password_hash = record {
  id = id;
  tenant_id = some tenant_id;
  email = input.admin_email;
  password_hash = password_hash;
  full_name = input.admin_full_name;
  role = org_admin;
  status = UserStatus.active;
  failed_login_count = 0;
  locked_until = none;
  last_login_at = none;
  token_version = 0;
}

-- FieldDefinitionsService.seedData, with the ids that the database gives the rows.
unfoldable pub seed_rows : (ℕ → ℕ) → ℕ → List FieldDefinition → List MemberFieldDefinition
seed_rows new_id tenant_id [] = []
seed_rows new_id tenant_id (f ∷ fs) =
    record {
      id = new_id 0;
      tenant_id = tenant_id;
      key = f.key;
      label = f.label;
      type = f.type;
      required = f.required;
      options = or_default f.options [];
      group = f.group;
      sort_order = f.sort_order;
      help_text = f.help_text;
      max_length = f.max_length;
      min = f.min;
      max = f.max;
      archived_at = none;
    }
    ∷ seed_rows (λ n. new_id (n + 1)) tenant_id fs

pub seed_data : (ℕ → ℕ) → ℕ → TenantTemplate → List MemberFieldDefinition
unfolding seed_rows
seed_data new_id tenant_id template = seed_rows new_id tenant_id (fields_for_template template)

abbrev pub has_slug : Text → Tenant → Bool
has_slug slug t = text_eq t.slug slug

abbrev pub is_tenant : ℕ → Tenant → Bool
is_tenant id t = t.id == id

abbrev pub apply_update : UpdateTenantInput → Tenant → Tenant
apply_update input t = record t {
  name = or_default input.name t.name;
  timezone = or_default input.timezone t.timezone;
  billing_email = or_default input.billing_email t.billing_email;
  plan = or_default input.plan t.plan;
  valid_until = or_default input.valid_until t.valid_until;
}

abbrev pub apply_suspend : ℕ → Text → Tenant → Tenant
apply_suspend now reason t = record t {
  status = suspended;
  suspended_at = some now;
  suspended_reason = some reason;
}

abbrev pub apply_reactivate : Tenant → Tenant
apply_reactivate t = record t {
  status = TenantStatus.active;
  suspended_at = none;
  suspended_reason = none;
}

abbrev pub is_cancelled : TenantStatus → Bool
is_cancelled cancelled = true
is_cancelled _ = false

module _ {T F : Type 0} where
  -- `createMany({ data })`
  unfoldable pub create_all : (F → T → T) → List F → T → T
  create_all create [] s = s
  create_all create (f ∷ fs) s = create_all create fs (create f s)

module _ (tenants : Table Tenant (λ t. t.id)) (users : Table User (λ u. u.id))
    (fields : Table MemberFieldDefinition (λ f. f.id)) where
  abbrev pub TenantsState : Type 0
  TenantsState = tenants.State × users.State × fields.State

  abbrev pub slug_taken : tenants.State → Text → Bool
  slug_taken ts slug = is_some (tenants.find_first ts (has_slug slug))

  -- The transaction of `create`: the tenant, its administrator and its fields.
  pub insert_all : Tenant → User → List MemberFieldDefinition → TenantsState → TenantsState
  insert_all t admin seeds (ts, us, fs) =
      (tenants.create t ts, users.create admin us, create_all fields.create seeds fs)

  pub create :
      Unicode → (Text → Text) → (ℕ → ℕ) → ℕ → ℕ → CreateTenantInput → Call TenantsState Tenant
  unfolding as_platform insert_all seed_data
  create u hash_password new_field_id tenant_id admin_id input (ctx, st) =
      elim (resolve_slug u (slug_taken st.0) (or_default input.slug (slugify u input.name))) [
        | err e ↦ (err e, (ctx, st))
        | ok slug ↦
            let t = tenant_row tenant_id input slug in
            let admin = admin_row admin_id tenant_id input (hash_password input.admin_password) in
            let seeds = seed_data new_field_id tenant_id input.template in
            (as_platform (modify (λ all. (all.0, insert_all t admin seeds all.1))) >> pure t)
              (ctx, st)
      ]

  -- `assertExists`, the update of the row, and the row as it is then.
  pub change : ℕ → (Tenant → Tenant) → Call TenantsState Tenant
  change id f = do
    found ← gets (λ st. tenants.find_unique st.1.0 id)
    or_throw found not_found
    modify (λ st. (st.0, (tenants.update_many (is_tenant id) f st.1.0, st.1.1, st.1.2)))
    after ← gets (λ st. tenants.find_unique st.1.0 id)
    or_throw after not_found

  pub update : ℕ → UpdateTenantInput → Call TenantsState Tenant
  update id input = change id (apply_update input)

  pub suspend : ℕ → ℕ → Text → Call TenantsState Tenant
  suspend now id reason = change id (apply_suspend now reason)

  pub reactivate : ℕ → Call TenantsState Tenant
  reactivate id = change id apply_reactivate

  pub find_by_id : ℕ → Call TenantsState Tenant
  find_by_id id = do found ← gets (λ st. tenants.find_unique st.1.0 id); or_throw found not_found

  -- The profile of a portal's login page, by the row that it renders.
  pub public_profile : Text → Call TenantsState (Option Tenant)
  public_profile slug = do
    found ← gets (λ st. tenants.find_first st.1.0 (has_slug slug))
    pure (elim found [ none ↦ none | some t ↦ if is_cancelled t.status then none else some t ])
