-- ===== src/Tenants/Tests.antt =====
-- Runs of the life of an organization.
use face_cam.Prelude.{
  ℕ, ◌+◌, ◌≤◌, ◌<◌, ◌≡◌, ◌≢◌, ◌⊎◌, inl, inr, refl, Bool, true, false, ◌||◌, Option, none, some,
  List, [], ◌∷◌, ◌++◌, Text, codes, text_eq, length, arith,
}
use face_cam.Prelude.Errors.{ok}
use face_cam.Enums.{trial, corporate}
use face_cam.Context.{RequestStore, opened}
use face_cam.Rows.{Tenant, User, MemberFieldDefinition}
use face_cam.Slug.{slugify, validate_slug, too_long, tenant_slug_from_host}
use face_cam.Slug.Ascii.{ascii}
use face_cam.Slug.Shape.{clean}
use face_cam.Store.{Table}
use face_cam.Store.Keyed.{keyed, holding}
use face_cam.Tenants.{
  candidate, resolve_slug, TenantsState, suspend, reactivate, apply_suspend, apply_reactivate,
  public_profile, UpdateTenantInput, apply_update, update,
}
use face_cam.Tenants.Naming.{IsResolved, resolve_slug-IsResolved, resolve_slug_too_long}

abbrev tenants : Table Tenant (λ t. t.id)
tenants = keyed (λ t. t.id)

abbrev users : Table User (λ u. u.id)
users = keyed (λ u. u.id)

abbrev fields : Table MemberFieldDefinition (λ f. f.id)
fields = keyed (λ f. f.id)

abbrev acme : Tenant
acme = record {
  id = 7;
  name = codes "Acme";
  slug = codes "acme";
  template = corporate;
  status = trial;
  timezone = codes "UTC";
  billing_email = none;
  plan = none;
  valid_until = none;
  suspended_at = none;
  suspended_reason = none;
  compreface_api_key_enc = none;
}

abbrev start : Option RequestStore × TenantsState tenants users fields
start = (
  some (opened (codes "c1")),
  (holding (λ t. t.id) (acme ∷ []), holding (λ u. u.id) [], holding (λ f. f.id) []),
)

abbrev taken : Text → Bool
taken slug = text_eq slug (codes "acme") || text_eq slug (codes "acme-2")

abbrev always : Text → Bool
always slug = true

resolve_slug-IsResolved_example : IsResolved ascii taken (codes "Acme") (codes "acme-3")
unfolding resolve_slug validate_slug slugify face_cam.Slug.trim_end face_cam.Slug.squeeze
    face_cam.Slug.trim_start face_cam.Slug.hyphenate face_cam.Slug.strip_diacritics
    face_cam.Slug.slug_pattern face_cam.Slug.slug_rest face_cam.Slug.is_reserved
    face_cam.Tenants.free_slug candidate face_cam.Prelude.decimal
resolve_slug-IsResolved_example =
    resolve_slug-IsResolved ascii taken (codes "Acme") (codes "acme-3") refl

-- Forty letters.
abbrev long_name : Text
long_name = codes "international-institute-of-technology-ab"

abbrev long_taken : Text → Bool
long_taken slug = text_eq slug long_name

resolve_slug_too_long_example :
    (resolve_slug ascii long_taken long_name ≡ ok (candidate long_name 1))
    × (validate_slug (candidate long_name 1) ≡ some too_long)
    × (tenant_slug_from_host ascii (codes "x.face.cam") (codes "face.cam")
        ≢ some (candidate long_name 1))
unfolding clean validate_slug face_cam.Slug.slug_pattern face_cam.Slug.slug_rest
    face_cam.Slug.is_reserved candidate
resolve_slug_too_long_example =
    resolve_slug_too_long ascii long_taken long_name (codes "x.face.cam") (codes "face.cam") refl
      refl (omega arith) refl refl

abbrev renaming : UpdateTenantInput
renaming = record {
  name = some (codes "Acme Ltd");
  timezone = none;
  billing_email = some none;
  plan = none;
  valid_until = none;
}
